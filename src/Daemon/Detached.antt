-- ===== src/Daemon/Detached.antt =====
-- proctool/bin/daemon.rs: a command that traces a process, but for a pause, ends with the detach from it.
use mathlib.Core.Path.{subst}
use process_magic.Prelude.{
  ℕ, zero, suc, ◌≡◌, refl, Bool, none, List, [], ◌∷◌, Result, ok, err, panic, unfinished, arith,
}
use process_magic.Int.{ℤ}
use process_magic.Text.{Text}
use process_magic.Host.{Host, ptrace_detach}
use process_magic.Host.Action.{pure, ◌>>=◌, ◌>>◌}
use process_magic.Messages.{Args, TakeoverArgs}
use process_magic.Pcontroller.{
  Session, Method, new, drop_controller, with_controller, detach, stop_at_next_syscall,
  is_writing_to_stdout, is_writing_to_stderr,
}
use process_magic.Pcontroller.Takeover
use process_magic.Pcontroller.Takeover.{takeover_with}
use process_magic.Pcontroller.Regions.{inject_bytes}
use process_magic.Host.Keeping.{Keeps, Keeps-bind, Keeps-Option}
use process_magic.Pcontroller.Keeping.{IsOwner, owner_rules}
use process_magic.Pcontroller.Keeping.Methods.{
  attach-Keeps, get_registers-Keeps, set_registers-Keeps, ensure_not_in_syscall-Keeps, detach-Keeps,
  detach_and_stop-Keeps, stop_at_next_syscall-Keeps, continue_syscall-Keeps, rot13-Keeps,
  is_writing_to_stdout-Keeps, is_writing_to_stderr-Keeps, cancel_pending_read-Keeps,
  colorize_stderr-Keeps,
}
use process_magic.Pcontroller.Keeping.Calls.{
  prepare_syscall-Keeps, execute_syscall-Keeps, map_region-Keeps, inject_bytes-Keeps,
  inject_u64s-Keeps,
}
use process_magic.Daemon.{
  redirect_with, inject_all, rewind_with, colorize_round, rot13_round, until_stop_fails, run_resume,
  run_redirect, run_rewind, run_takeover, run_colorize_stderr, run_rot13, run_command,
}

-- The commands that trace a process, but for a pause.
pub data Traces (pid : ℤ) : Args → Type 0 where
  resume : Traces pid (Args.resume pid)
  redirect : (tty : Text) → Traces pid (Args.redirect pid tty)
  rewind : Traces pid (Args.rewind pid)
  takeover : (args : TakeoverArgs) → args.pid ≡ pid → Traces pid (Args.takeover args)
  colorize_stderr : Traces pid (Args.colorize_stderr pid)
  rot13 : Traces pid (Args.rot13 pid)

module _ (H : Host) where
  -- A command that has come to an end made PTRACE_DETACH its last call.
  abbrev pub Detached : {A : Type 0} → ℤ → Result A × H.State → Type 0
  Detached pid (unfinished, t) = Unit
  Detached pid (_, t) = (u : H.State) × (t ≡ (H.perform (ptrace_detach pid none) u).1)

  drop_controller-detach :
      (pid : ℤ) (t : Session H.State)
      → IsOwner pid t
      → (drop_controller H t).1.os ≡ (H.perform (ptrace_detach pid none) t.os).1
  unfolding drop_controller detach
  drop_controller-detach pid t (e, f) = ground (arith, e, f)

  with_controller-Detached :
      {A : Type 0} (pid : ℤ) (body : Method H A) (s : H.State)
      → Keeps (IsOwner pid) body
      → Detached pid (with_controller H (new pid) body s)
  unfolding with_controller
  with_controller-Detached {A} pid body s k =
      ends (body start).0 (body start).1 (k.at start (refl, refl))
    where
      start : Session H.State
      start = record { controller = new pid; os = s }

      ends :
          (r : Result A) (t : Session H.State)
          → IsOwner pid t
          → Detached pid (with_controller H (new pid) (λ (_ : Session H.State). (r, t)) s)
      ends (ok a) t h = (t.os, drop_controller-detach pid t h)
      ends (err e) t h = (t.os, drop_controller-detach pid t h)
      ends panic t h = (t.os, drop_controller-detach pid t h)
      ends unfinished t h = tt

  module _ {pid : ℤ} where
    redirect_with-Keeps : (tty : Text) → Keeps (IsOwner pid) (redirect_with H tty)
    unfolding redirect_with
    redirect_with-Keeps tty =
        search
          (
            owner_rules, attach-Keeps, cancel_pending_read-Keeps, get_registers-Keeps,
            execute_syscall-Keeps, inject_bytes-Keeps, set_registers-Keeps, detach-Keeps,
          )
          depth 20

    inject_all-Keeps :
        (command_line : List (List ℕ)) → Keeps (IsOwner pid) (inject_all H command_line)
    unfolding inject_all
    inject_all-Keeps [] = search owner_rules
    inject_all-Keeps (arg ∷ command_line) =
        injected (inject_all H command_line) (inject_all-Keeps command_line)
      where
        injected :
            (rest : Method H (List ℕ))
            → Keeps (IsOwner pid) rest
            → Keeps (IsOwner pid) (do addr ← inject_bytes H arg; addrs ← rest; pure (addr ∷ addrs))
        injected rest k = search (owner_rules, inject_bytes-Keeps)

    rewind_with-Keeps : Keeps (IsOwner pid) (rewind_with H pid)
    unfolding rewind_with
    rewind_with-Keeps =
        search
          (
            owner_rules, attach-Keeps, ensure_not_in_syscall-Keeps, inject_all-Keeps,
            inject_u64s-Keeps, inject_bytes-Keeps, execute_syscall-Keeps, detach-Keeps,
          )
          depth 20

    takeover_with-Keeps :
        (path : Text) (pause : Bool) → Keeps (IsOwner pid) (takeover_with H path pause)
    unfolding takeover_with
    takeover_with-Keeps path pause =
        search
          (
            owner_rules, attach-Keeps, ensure_not_in_syscall-Keeps, inject_bytes-Keeps,
            prepare_syscall-Keeps, detach-Keeps, detach_and_stop-Keeps,
          )
          depth 20

    rot13_round-Keeps : Keeps (IsOwner pid) (rot13_round H)
    unfolding rot13_round
    rot13_round-Keeps =
        Keeps-bind (is_writing_to_stdout H) _ (is_writing_to_stdout-Keeps H) λ writing.
          Keeps-Option writing _ _ (continue_syscall-Keeps H)
            λ found. search (owner_rules, rot13-Keeps, continue_syscall-Keeps)

    colorize_round-Keeps : (region_addr : ℕ) → Keeps (IsOwner pid) (colorize_round H region_addr)
    unfolding colorize_round
    colorize_round-Keeps region_addr =
        Keeps-bind (is_writing_to_stderr H) _ (is_writing_to_stderr-Keeps H) λ writing.
          Keeps-Option writing _ _ (continue_syscall-Keeps H) λ found. search (
            owner_rules, get_registers-Keeps, colorize_stderr-Keeps, continue_syscall-Keeps,
            set_registers-Keeps,
          )

    -- the loop behind a stop, over what is done when the stop has succeeded
    behind_stop-Keeps :
        (next : Method H (Unit {0})) (r : Result (Unit {0})) (t : Session H.State)
        → Keeps (IsOwner pid) next
        → IsOwner pid t
        → let ended : Result (Unit {0}) × Session H.State = elim r [
          | ok a ↦ next t
          | err e ↦ (ok tt, t)
          | panic ↦ (panic, t)
          | unfinished ↦ (unfinished, t)
        ] in
          IsOwner pid ended.1
    behind_stop-Keeps next (ok a) t k h = k.at t h
    behind_stop-Keeps next (err e) t k h = h
    behind_stop-Keeps next panic t k h = h
    behind_stop-Keeps next unfinished t k h = h

    until_stop_fails-Keeps :
        (rounds : ℕ) (round : Method H (Unit {0}))
        → Keeps (IsOwner pid) round
        → Keeps (IsOwner pid) (until_stop_fails H rounds round)
    unfolding until_stop_fails
    until_stop_fails-Keeps zero round k = record { at = λ s h. h }
    until_stop_fails-Keeps (suc rounds) round k = record {
      at = λ s h.
          behind_stop-Keeps (round >> until_stop_fails H rounds round) (stop_at_next_syscall H s).0
            (stop_at_next_syscall H s).1
            (Keeps-bind round _ k λ _. until_stop_fails-Keeps rounds round k)
            ((stop_at_next_syscall-Keeps H).at s h);
    }

  run_takeover-Detached :
      (root : Text) (args : TakeoverArgs) (s : H.State)
      → Detached args.pid (run_takeover H root args s)
  unfolding run_takeover Takeover.takeover
  run_takeover-Detached root args s =
      with_controller-Detached args.pid _ s (takeover_with-Keeps _ args.pause)

  -- A resume, redirect, rewind, takeover, colorize-stderr or rot13 command that comes to an end,
  -- well, with an error or in a panic, makes the detach from its process as its last call. (A
  -- pause is not among them: it attaches and does not detach.)
  pub run_command-Detached :
      (root : Text) (args : Args) (pid : ℤ)
      → Traces pid args
      → (s : H.State) → Detached pid (run_command H root args s)
  unfolding run_command run_resume run_redirect run_rewind run_takeover run_colorize_stderr
      run_rot13
  run_command-Detached root args pid resume s = with_controller-Detached pid _ s (detach-Keeps H)
  run_command-Detached root args pid (redirect tty) s =
      with_controller-Detached pid _ s (redirect_with-Keeps tty)
  run_command-Detached root args pid rewind s = with_controller-Detached pid _ s rewind_with-Keeps
  run_command-Detached root args pid rot13 s =
      with_controller-Detached pid _ s (
        search (owner_rules, attach-Keeps, until_stop_fails-Keeps, rot13_round-Keeps, detach-Keeps))
  run_command-Detached root args pid colorize_stderr s = with_controller-Detached pid _ s (
      search
        (
          owner_rules, attach-Keeps, get_registers-Keeps, map_region-Keeps, set_registers-Keeps,
          until_stop_fails-Keeps, colorize_round-Keeps, detach-Keeps,
        )
        depth 20)
  run_command-Detached root args pid (takeover takeover_args e) s =
      subst (λ p. Detached p (run_takeover H root takeover_args s)) e
        (run_takeover-Detached root takeover_args s)
