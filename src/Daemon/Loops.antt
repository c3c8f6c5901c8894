-- ===== src/Daemon/Loops.antt =====
-- proctool/bin/daemon.rs: the loops that follow a process until it can no longer be stopped.
use process_magic.Prelude.{
  ℕ, zero, suc, ◌<◌, ◌≡◌, refl, sym, arith, Error, Result, ok, err, panic, unfinished, IsReturned,
}
use mathlib.Core.Path.{subst}
use process_magic.Host.{Host}
use process_magic.Pcontroller.{Session, Method, stop_at_next_syscall}
use process_magic.Daemon.{until_stop_fails}

module _ (H : Host) (round : Method H (Unit {0})) where
  -- The sessions that are reached by rounds that end well, each behind a stop.
  pub data Reaches : Session H.State → Session H.State → Type 0 where
    here : {s : Session H.State} → Reaches s s
    stopped :
        {s t u v : Session H.State}
        → stop_at_next_syscall H s ≡ (ok tt, t)
        → round t ≡ (ok tt, u)
        → Reaches u v
        → Reaches s v

  -- How the loop ends from the session on: well where a stop fails, or with the error of a round.
  pub data Ends (s : Session H.State) : Result (Unit {0}) × Session H.State → Type 0 where
    gone :
        {u t : Session H.State} {e : Error}
        → Reaches s u
        → stop_at_next_syscall H u ≡ (err e, t)
        → Ends s (ok tt, t)
    failed :
        {u v t : Session H.State} {e : Error}
        → Reaches s u
        → stop_at_next_syscall H u ≡ (ok tt, v)
        → round v ≡ (err e, t)
        → Ends s (err e, t)

  Ends-stopped :
      {s t u : Session H.State} {o : Result (Unit {0}) × Session H.State}
      → stop_at_next_syscall H s ≡ (ok tt, t)
      → round t ≡ (ok tt, u)
      → Ends u o
      → Ends s o
  Ends-stopped e f (gone r g) = gone (stopped e f r) g
  Ends-stopped e f (failed r g h) = failed (stopped e f r) g h

  module _ (left : Session H.State → ℕ)
      (stops : (s : Session H.State) → IsReturned (stop_at_next_syscall H s).0)
      (rounds : (s : Session H.State) → IsReturned (round s).0)
      (falls : (s t u : Session H.State)
        → stop_at_next_syscall H s ≡ (ok tt, t)
        → round t ≡ (ok tt, u)
        → left u < left s) where
    -- If a stop and a round return from every session, and a stop and a round that both end well
    -- lower a measure of the session, the loop of the colorize and rot13 commands, given fuel for
    -- more rounds than the measure, comes to an end: from a session that rounds which end well
    -- reach, it ends well where a stop fails, or with the error of a round behind a stop.
    pub until_stop_fails-Ends :
        (fuel : ℕ) (s : Session H.State) → left s < fuel → Ends s (until_stop_fails H fuel round s)
    unfolding until_stop_fails
    until_stop_fails-Ends zero s h = absurd (omega arith)
    until_stop_fails-Ends (suc fuel) s h =
        at_stop (stop_at_next_syscall H s).0 (stop_at_next_syscall H s).1 refl (stops s)
          (until_stop_fails-Ends fuel)
      where
        -- the rounds behind this one
        Rest : Type 0
        Rest = (u : Session H.State) → left u < fuel → Ends u (until_stop_fails H fuel round u)

        at_round :
            (t : Session H.State)
            → stop_at_next_syscall H s ≡ (ok tt, t)
            → (r : Result (Unit {0})) (u : Session H.State) → round t ≡ (r, u)
            → IsReturned r
            → Rest
            → Ends s (until_stop_fails H (suc fuel) round s)
        at_round t e (ok a) u f g rest =
            let again : until_stop_fails H (suc fuel) round s ≡ until_stop_fails H fuel round u =
              ground (arith, e, f) in
            let less : left u < left s = falls s t u e f in
            subst (Ends s) (sym again) (Ends-stopped e f (rest u (omega (arith, less, h))))
        at_round t e (err x) u f g rest =
            let ended : until_stop_fails H (suc fuel) round s ≡ (err x, u) = ground (arith, e, f) in
            subst (Ends s) (sym ended) (failed here e f)
        at_round t e panic u f g rest = absurd g
        at_round t e unfinished u f g rest = absurd g

        at_stop :
            (r : Result (Unit {0})) (t : Session H.State)
            → stop_at_next_syscall H s ≡ (r, t)
            → IsReturned r
            → Rest
            → Ends s (until_stop_fails H (suc fuel) round s)
        at_stop (ok a) t e g rest = at_round t e (round t).0 (round t).1 refl (rounds t) rest
        at_stop (err x) t e g rest =
            let ended : until_stop_fails H (suc fuel) round s ≡ (ok tt, t) = ground (arith, e) in
            subst (Ends s) (sym ended) (gone here e)
        at_stop panic t e g rest = absurd g
        at_stop unfinished t e g rest = absurd g
