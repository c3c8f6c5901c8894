-- ===== src/Pcontroller/Waiting.antt =====
-- `ensure_not_in_syscall`: when it returns, and when it spins.
use process_magic.Prelude.{
  ℕ, zero, suc, ◌<◌, ◌≡◌, ◌≢◌, refl, ◌∙◌, arith, ok, unfinished, ==_ne, ==_iff,
}
use process_magic.Host.{Host}
use process_magic.Host.Tracee.{Tracee, steps}
use process_magic.Pcontroller.{
  ProcessController, Session, get_registers, step_and_wait, wait_for_pc, ensure_not_in_syscall,
}

module _ (H : Host) (c : ProcessController) (T : Tracee H c.pid) where
  open T use {IsStopped, registers, getregset, after_step, step, stops, step-IsStopped}

  abbrev at : H.State → Session H.State
  at s = record { controller = c; os = s }

  pub get_registers-at :
      (s : H.State) → IsStopped s → get_registers H (at s) ≡ (ok (registers s), at s)
  unfolding get_registers
  get_registers-at s h = ground (arith, getregset s h)

  pub step_and_wait-at :
      (s : H.State) → IsStopped s → step_and_wait H (at s) ≡ (ok tt, at (after_step s))
  unfolding step_and_wait
  step_and_wait-at s h = ground (arith, step s h, stops s h)

  -- one round, by where the step has led
  round_done :
      (n pc : ℕ) (s : H.State)
      → IsStopped s
      → (registers (after_step s)).pc ≢ pc
      → wait_for_pc H (suc n) pc (at s) ≡ (ok tt, at (after_step s))
  unfolding wait_for_pc
  round_done n pc s h moved = ground (
    arith,
    step_and_wait-at s h,
    get_registers-at (after_step s) (step-IsStopped s h),
    ==_ne (registers (after_step s)).pc pc moved,
  )

  round_again :
      (n pc : ℕ) (s : H.State)
      → IsStopped s
      → (registers (after_step s)).pc ≡ pc
      → wait_for_pc H (suc n) pc (at s) ≡ wait_for_pc H n pc (at (after_step s))
  unfolding wait_for_pc
  round_again n pc s h same = ground (
    arith,
    step_and_wait-at s h,
    get_registers-at (after_step s) (step-IsStopped s h),
    (==_iff (registers (after_step s)).pc pc).1 same,
  )

  wait_ends :
      (k n pc : ℕ) (s : H.State)
      → IsStopped s
      → k < n
      → ((j : ℕ) → j < k → (registers (steps T (suc j) s)).pc ≡ pc)
      → (registers (steps T (suc k) s)).pc ≢ pc
      → wait_for_pc H n pc (at s) ≡ (ok tt, at (steps T (suc k) s))
  wait_ends k zero pc s h lt same moved = absurd (omega arith)
  wait_ends zero (suc n) pc s h lt same moved = round_done n pc s h moved
  wait_ends (suc k) (suc n) pc s h lt same moved =
      round_again n pc s h (same 0 (omega arith))
      ∙ wait_ends k n pc (after_step s) (step-IsStopped s h) (omega arith)
          (λ j hj. same (suc j) (omega arith)) moved

  wait_spins :
      (n pc : ℕ) (s : H.State)
      → IsStopped s
      → ((j : ℕ) → j < n → (registers (steps T (suc j) s)).pc ≡ pc)
      → wait_for_pc H n pc (at s) ≡ (unfinished, at (steps T n s))
  wait_spins zero pc s h same = unfold wait_for_pc in refl
  wait_spins (suc n) pc s h same =
      round_again n pc s h (same 0 (omega arith))
      ∙ wait_spins n pc (after_step s) (step-IsStopped s h) (λ j hj. same (suc j) (omega arith))

  -- For a stopped tracee whose program counter moves at step k + 1 and not before, and fuel for
  -- more than k rounds, ensure_not_in_syscall returns, in the state behind that step.
  pub ensure_not_in_syscall_returns :
      (k : ℕ) (s : H.State)
      → IsStopped s
      → k < H.fuel
      → ((j : ℕ) → j < k → (registers (steps T (suc j) s)).pc ≡ (registers s).pc)
      → (registers (steps T (suc k) s)).pc ≢ (registers s).pc
      → ensure_not_in_syscall H (at s) ≡ (ok tt, at (steps T (suc k) s))
  unfolding ensure_not_in_syscall
  ensure_not_in_syscall_returns k s h lt same moved =
      ground (arith, get_registers-at s h, wait_ends k H.fuel (registers s).pc s h lt same moved)

  -- For a stopped tracee whose program counter no step moves, as in a read that waits for input,
  -- ensure_not_in_syscall is still stepping when any fuel is used up.
  pub ensure_not_in_syscall_spins :
      (s : H.State)
      → IsStopped s
      → ((j : ℕ) → (registers (steps T (suc j) s)).pc ≡ (registers s).pc)
      → ensure_not_in_syscall H (at s) ≡ (unfinished, at (steps T H.fuel s))
  unfolding ensure_not_in_syscall
  ensure_not_in_syscall_spins s h same =
      ground (arith, get_registers-at s h, wait_spins H.fuel (registers s).pc s h (λ j _. same j))
