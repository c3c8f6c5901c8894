-- ===== src/Terminals/Spawned/User.antt =====
-- proctool/terminals.rs: the user as whom `spawn_on_terminal` executes the program.
use process_magic.Prelude.{
  ℕ, ◌≡◌, refl, Bool, true, false, not, ◌&&◌, ◌||◌, ◌==◌, some, List, [], ◌∷◌, arith, Result, ok,
  err, panic, unfinished,
}
use process_magic.Int.{ℤ}
use process_magic.Text.{Text}
use process_magic.Host.{Host, Call, setuid, execv, tiocsctty, ForkResult, fork, parent, child}
use process_magic.Host.Action.{Action, labelled, ◌>>◌}
use process_magic.Host.Keeping.{Keeps, Keeps-bind, Keeps-from, keeps_rules}
use process_magic.Host.Log.{Log, logged, is_ok}
use process_magic.Terminals.{normalize_tty, c_string, clear_terminal}
use process_magic.Terminals.Spawned.{
  c_strings, take_terminal, drop_to, become, lead_terminal, spawn_on_terminal,
}

abbrev is_setuid : ℕ → Call → Bool
is_setuid uid (setuid user) = user == uid
is_setuid uid _ = false

abbrev is_execv : Call → Bool
is_execv (execv path args) = true
is_execv _ = false

-- A change to the user that has had success.
abbrev pub did_setuid : ℕ → Log → Bool
did_setuid uid [] = false
did_setuid uid ((c, done) ∷ log) = (is_setuid uid c && done) || did_setuid uid log

-- Each `execv` comes after such a change.
abbrev pub ExecsAs : ℕ → Log → Type 0
ExecsAs uid [] = Unit
ExecsAs uid ((c, done) ∷ log) = ((not (is_execv c) || did_setuid uid log) ≡ true) × ExecsAs uid log

module _ (H : Host) (uid : ℕ) where
  abbrev IsSafe : (logged H).State → Type 0
  IsSafe s = ExecsAs uid s.1

  abbrev IsUser : (logged H).State → Type 0
  IsUser s = (did_setuid uid s.1 ≡ true) × ExecsAs uid s.1

  -- A call that is no `execv`, and any call behind the change of the user.
  call-IsSafe : (c : Call) → is_execv c ≡ false → Keeps IsSafe ((logged H).perform c)
  call-IsSafe c e = record { at = λ s h. ground (arith, e) }

  call-IsUser : (c : Call) → Keeps IsUser ((logged H).perform c)
  call-IsUser c = record { at = λ s h. ground arith }

  ruleset user_rules = (keeps_rules, call-IsUser)

  ruleset safe_rules = (keeps_rules, call-IsSafe, refl)

  become-IsUser :
      (path : Text) (args_c : List Text) (tty : Text) (fd : ℕ)
      → Keeps IsUser (become (logged H) path args_c tty fd)
  unfolding become clear_terminal
  become-IsUser path args_c tty fd = search user_rules depth 12

  -- behind the change of the user, by how it has ended
  setuid-IsUser :
      (k : Action (logged H).State (Unit {0}))
      → Keeps IsUser k
      → Keeps IsSafe (drop_to (logged H) (some uid) >> k)
  unfolding drop_to
  setuid-IsUser k kk = record { at = λ s h. ends (H.perform (setuid uid) s.0).0 _ s.1 h }
    where
      ends :
          (r : Result (Unit {0})) (t : H.State) (log : Log)
          → ExecsAs uid log
          → let next : (logged H).State = (t, (setuid uid, is_ok r) ∷ log) in
            IsSafe ((labelled "setuid() failed" (λ (_ : (logged H).State). (r, next)) >> k) next).1
      ends (ok a) t log h = (kk.at (t, (setuid uid, true) ∷ log) (ground (arith, h))).1
      ends (err e) t log h = ground (arith, h)
      ends panic t log h = ground (arith, h)
      ends unfinished t log h = ground (arith, h)

  take_terminal-IsSafe : (fd : ℕ) → Keeps IsSafe (take_terminal (logged H) fd)
  unfolding take_terminal
  take_terminal-IsSafe fd = record {
    at = λ s h. ground (arith, (call-IsSafe (tiocsctty fd) refl).at s h);
  }

  lead_terminal-IsSafe :
      (path : Text) (args_c : List Text) (tty : Text) (child_pid : ℤ)
      → Keeps IsSafe (lead_terminal (logged H) path args_c tty (some uid) child_pid)
  unfolding lead_terminal
  lead_terminal-IsSafe path args_c tty child_pid =
      search (safe_rules, take_terminal-IsSafe, setuid-IsUser, become-IsUser) depth 20

  Keeps-fork :
      (forked : ForkResult) (m : ℤ → Action (logged H).State (Unit {0}))
      (n : Action (logged H).State (Unit {0}))
      → ((child_pid : ℤ) → Keeps IsSafe (m child_pid))
      → Keeps IsSafe n
      → Keeps IsSafe (elim forked [ parent child_pid ↦ m child_pid | child ↦ n ])
  Keeps-fork (parent child_pid) m n km kn = km child_pid
  Keeps-fork child m n km kn = kn

  -- Whatever the machine does, when spawn_on_terminal is given a user, each execv that it tries
  -- comes after a change to that user that has had success.
  pub spawn_on_terminal-ExecsAs :
      (path : Text) (args : List Text) (tty : Text) (s : H.State)
      → ExecsAs uid (spawn_on_terminal (logged H) path args tty (some uid) (s, [])).1.1
  unfolding spawn_on_terminal
  spawn_on_terminal-ExecsAs path args tty s = spawned.at (s, []) tt
    where
      spawned : Keeps IsSafe (spawn_on_terminal (logged H) path args tty (some uid))
      spawned = Keeps-bind _ _ (Keeps-from (normalize_tty tty)) λ tty.
          Keeps-bind _ _ (Keeps-from (c_string path)) λ path_c.
            Keeps-bind _ _ (Keeps-from (c_string tty)) λ tty_c.
              Keeps-bind _ _ (Keeps-from (c_strings args)) λ args_c.
                Keeps-bind _ _ (call-IsSafe fork refl) λ forked.
                  Keeps-fork forked _ _ (lead_terminal-IsSafe path_c args_c tty_c)
                    (search safe_rules)
