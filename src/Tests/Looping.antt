-- ===== src/Tests/Looping.antt =====
-- The loop of the rot13 command, on a process that ends after so many stops.
use process_magic.Prelude.{
  ℕ, zero, suc, ◌<◌, ◌≡◌, ap, sym, arith, Result, ok, err, errno, IsReturned,
}
use process_magic.Host
use process_magic.Host.{Host, Call, Reply}
use process_magic.Words.{debug}
use process_magic.Int.{pos}
use process_magic.Pcontroller.{
  Session, new, get_registers, stop_at_next_syscall, continue_syscall, is_writing_to_stdout,
  wait_for_anything,
}
use process_magic.Daemon.{rot13_round, until_stop_fails}
use process_magic.Daemon.Loops.{Ends, until_stop_fails-Ends}
use process_magic.Tests.Willing.{still}

-- the state is the number of stops that are left
abbrev last_stops : (c : Call) → ℕ → Result (Reply c) × ℕ
last_stops (Host.ptrace_syscall pid) zero = (err (errno 3), zero)
last_stops (Host.ptrace_syscall pid) (suc n) = (ok tt, n)
last_stops (Host.waitpid pid flag) n = (ok tt, n)
last_stops (Host.ptrace_getregset pid) n = (ok still, n)
last_stops c n = (err (errno 1), n)

abbrev ending : Host
ending = record { State = ℕ; perform = last_stops; sysno = λ n. 64; profile = debug; fuel = 0 }

abbrev at : ℕ → Session ℕ
at n = record { controller = new (pos 8); os = n }

stops : (s : Session ℕ) → IsReturned (stop_at_next_syscall ending s).0
unfolding stop_at_next_syscall wait_for_anything
stops s = go s.os
  where
    go : (n : ℕ) → IsReturned (stop_at_next_syscall ending (record s { os = n })).0
    go zero = tt
    go (suc n) = tt

rounds : (s : Session ℕ) → IsReturned (rot13_round ending s).0
unfolding rot13_round is_writing_to_stdout get_registers continue_syscall wait_for_anything
rounds s = go s.os
  where
    go : (n : ℕ) → IsReturned (rot13_round ending (record s { os = n })).0
    go zero = tt
    go (suc n) = tt

-- a stop that succeeds is one of those that are left
stop_taken :
    (n : ℕ) (s t : Session ℕ)
    → stop_at_next_syscall ending (record s { os = n }) ≡ (ok tt, t)
    → suc t.os ≡ n
unfolding stop_at_next_syscall wait_for_anything
stop_taken zero s t e = cc
stop_taken (suc n) s t e = ap (λ o. suc o.1.os) (sym e)

round_taken :
    (n : ℕ) (s t : Session ℕ) → rot13_round ending (record s { os = n }) ≡ (ok tt, t) → suc t.os ≡ n
unfolding rot13_round is_writing_to_stdout get_registers continue_syscall wait_for_anything
round_taken zero s t e = cc
round_taken (suc n) s t e = ap (λ o. suc o.1.os) (sym e)

falls :
    (s t u : Session ℕ)
    → stop_at_next_syscall ending s ≡ (ok tt, t)
    → rot13_round ending t ≡ (ok tt, u)
    → u.os < s.os
falls s t u e f = omega (arith, stop_taken s.os s t e, round_taken t.os t u f)

-- two rounds, and a third whose call cannot go on
until_stop_fails_example :
    Ends ending (rot13_round ending) (at 5) (until_stop_fails ending 6 (rot13_round ending) (at 5))
until_stop_fails_example =
    until_stop_fails-Ends ending (rot13_round ending) (λ s. s.os) stops rounds falls 6 (at 5)
      (omega arith)
