-- ===== src/Daemon/Paused.antt =====
-- proctool/bin/daemon.rs: what becomes of the process when a command is over.
use process_magic.Prelude.{◌≡◌, refl, ap, arith, false, none, Result, ok, err, panic, unfinished}
use process_magic.Int.{ℤ}
use process_magic.Host.{Host}
use process_magic.Pcontroller.{ProcessController, Session, attach, drop_controller, with_controller}
use process_magic.Daemon.{run_pause}

module _ (H : Host) where
  -- the controller of a pause
  abbrev pub pausing : ℤ → H.State → Session H.State
  pausing pid s = record {
    controller = record { pid = pid; memory_maps = none; detach_on_drop = false };
    os = s;
  }

  attach-controller : (s : Session H.State) → (attach H s).1.controller ≡ s.controller
  unfolding attach
  attach-controller s = ground arith

  -- A body that leaves the flag cleared is not followed by a detach.
  with_controller-open :
      (c : ProcessController) (s : H.State) (r : Result (Unit {0})) (t : Session H.State)
      → t.controller.detach_on_drop ≡ false
      → with_controller H c (λ (_ : Session H.State). (r, t)) s ≡ (r, t.os)
  unfolding with_controller drop_controller
  with_controller-open c s (ok a) t e = ground (arith, e)
  with_controller-open c s (err x) t e = ground (arith, e)
  with_controller-open c s panic t e = ground (arith, e)
  with_controller-open c s unfinished t e = refl

  -- A pause ends as its attach ends, be it well, with an error or in a panic, and in the state
  -- that the attach leaves: it is not followed by a detach.
  pub run_pause-attach :
      (pid : ℤ) (s : H.State)
      → run_pause H pid s ≡ ((attach H (pausing pid s)).0, (attach H (pausing pid s)).1.os)
  unfolding run_pause with_controller
  run_pause-attach pid s =
      with_controller-open (pausing pid s).controller s (attach H (pausing pid s)).0
        (attach H (pausing pid s)).1
        (ap (λ (c : ProcessController). c.detach_on_drop) (attach-controller (pausing pid s)))
