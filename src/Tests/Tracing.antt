-- ===== src/Tests/Tracing.antt =====
-- The theorems on a traced process, applied to the small machine.
use process_magic.Prelude.{
  ◌∙◌, ap, ℕ, zero, suc, ◌<◌, ◌≡◌, ◌≢◌, refl, [], ◌∷◌, arith, ok, unfinished, ltb, leb, ◌&&◌,
  if◌then◌else◌,
}
use process_magic.Host
use process_magic.Host.{Registers}
use process_magic.Host.Action.{◌>>◌}
use process_magic.Host.Tracee.{steps}
use process_magic.Pcontroller.{new, ensure_not_in_syscall}
use process_magic.Pcontroller.Waiting.{ensure_not_in_syscall_returns, ensure_not_in_syscall_spins}
use process_magic.Pcontroller.Rot13.{rot13}
use process_magic.Pcontroller.Memory.{Leaves}
use process_magic.Pcontroller.Rot13.Region.{rotated, rot13-Leaves, rot13_twice}
use process_magic.Pcontroller.Syscalls.{execute_syscall_at_pc}
use process_magic.Pcontroller.Syscalls.Execute.{prepared, execute_syscall_at_pc_lem}
use process_magic.Spawn.{make_syscall}
use process_magic.Spawn.Restore.{injected, restored, make_syscall_restores}
use process_magic.Tests.Machine.{
  toy_stop, toy_stepping, advance, Toy, rounds, forever, bytes_of, toy_host, toy_tracee, toy_memory,
  toy_machine, tracee_pid, registers_at_rest, machine_waiting, machine_at_rest, session,
}

-- two rounds wait in the system call, and the third leaves it
ensure_not_in_syscall_returns_example :
    ensure_not_in_syscall toy_host (session (machine_waiting (rounds 2)))
    ≡ (ok tt, session (steps (toy_tracee tracee_pid) 3 (machine_waiting (rounds 2))))
ensure_not_in_syscall_returns_example =
    ensure_not_in_syscall_returns toy_host (new tracee_pid) (toy_tracee tracee_pid) 2
      (machine_waiting (rounds 2)) refl (omega arith) same moved
  where
    same :
        (j : ℕ)
        → j < 2
        → (steps (toy_tracee tracee_pid) (suc j) (machine_waiting (rounds 2))).at_regs.pc ≡ 200
    same zero h = refl
    same (suc zero) h = refl
    same (suc (suc j)) h = absurd (omega arith)

    moved : (steps (toy_tracee tracee_pid) 3 (machine_waiting (rounds 2))).at_regs.pc ≢ 200
    moved h = omega (arith, h)

stays :
    (j : ℕ) (s : Toy)
    → s.waiting ≡ forever
    → (steps (toy_tracee tracee_pid) j s).at_regs.pc ≡ s.at_regs.pc
stays zero s e = refl
stays (suc j) s e =
    stays j (toy_stop (toy_stepping s)) (ap (λ w. (advance w s.at_regs).0) e)
    ∙ ap (λ w. (advance w s.at_regs).1.pc) e

ensure_not_in_syscall_spins_example :
    ensure_not_in_syscall toy_host (session (machine_waiting forever))
    ≡ (unfinished, session (steps (toy_tracee tracee_pid) 5 (machine_waiting forever)))
ensure_not_in_syscall_spins_example =
    ensure_not_in_syscall_spins toy_host (new tracee_pid) (toy_tracee tracee_pid)
      (machine_waiting forever) refl (λ j. stays (suc j) (machine_waiting forever) refl)

rot13-Leaves_example :
    Leaves toy_host
      (new tracee_pid)
      (toy_memory tracee_pid)
      machine_at_rest
      (rotated (bytes_of machine_at_rest) 100 126)
      (rot13 toy_host 100 26 (session machine_at_rest))
rot13-Leaves_example =
    rot13-Leaves toy_host (new tracee_pid) (toy_memory tracee_pid) machine_at_rest 100 26
      (omega arith) (λ j h. refl)

rot13_twice_example :
    Leaves toy_host
      (new tracee_pid)
      (toy_memory tracee_pid)
      machine_at_rest
      (bytes_of machine_at_rest)
      ((rot13 toy_host 100 26 >> rot13 toy_host 100 26) (session machine_at_rest))
rot13_twice_example =
    rot13_twice toy_host (new tracee_pid) (toy_memory tracee_pid) machine_at_rest 100 26
      (omega arith) (λ j h. refl)

abbrev closing : Toy
closing =
    prepared toy_host (new tracee_pid) (toy_tracee tracee_pid) Host.close_no (1 ∷ []) 300
      machine_at_rest

execute_syscall_at_pc_example :
    let t = steps (toy_tracee tracee_pid) 1 closing in
    execute_syscall_at_pc toy_host Host.close_no (1 ∷ []) 300 (session machine_at_rest)
    ≡ (ok (t.at_regs.regs 0), session t)
execute_syscall_at_pc_example =
    execute_syscall_at_pc_lem toy_host (new tracee_pid) (toy_tracee tracee_pid) Host.close_no
      (1 ∷ []) 300 0 machine_at_rest refl (omega arith) (omega arith) (λ j h. absurd (omega arith))
      (λ h. omega (arith, h))

make_syscall_restores_example :
    let t = toy_machine tracee_pid in
    let behind =
      t.tracee.after_step (injected toy_host tracee_pid t Host.close_no (1 ∷ []) machine_at_rest) in
    let next = restored toy_host tracee_pid t Host.close_no (1 ∷ []) machine_at_rest in
    (make_syscall toy_host tracee_pid Host.close_no (1 ∷ []) machine_at_rest
      ≡ (ok (behind.at_regs.regs 0), next))
    × (next.at_regs ≡ registers_at_rest)
    × ((b : ℕ)
        → bytes_of next b
          ≡ (if leb 200 b && ltb b 208 then bytes_of machine_at_rest b else bytes_of behind b))
make_syscall_restores_example =
    make_syscall_restores toy_host tracee_pid (toy_machine tracee_pid) Host.close_no (1 ∷ [])
      machine_at_rest refl (omega arith) refl refl
