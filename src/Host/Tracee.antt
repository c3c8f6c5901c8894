-- ===== src/Host/Tracee.antt =====
-- What the code relies on of PTRACE_GETREGSET, PTRACE_SETREGSET and PTRACE_SINGLESTEP (ptrace(2)):
-- a stopped tracee has registers, which can be read and set, and a step of it comes to a stop again,
-- which `waitpid` reports.
use process_magic.Prelude.{ℕ, zero, suc, ◌≡◌, ok, some}
use process_magic.Int.{ℤ}
use process_magic.Host.{
  Host, Registers, ptrace_getregset, ptrace_setregset, ptrace_step, waitpid, wstopped,
}

pub record Tracee (H : Host) (pid : ℤ) : Type 1 where
  pub IsStopped : H.State → Type 0
  pub registers : H.State → Registers
  pub getregset :
      (s : H.State) → IsStopped s → H.perform (ptrace_getregset pid) s ≡ (ok (registers s), s)
  pub after_setregset : H.State → Registers → H.State
  pub setregset :
      (s : H.State) (r : Registers)
      → IsStopped s
      → H.perform (ptrace_setregset pid r) s ≡ (ok tt, after_setregset s r)
  pub registers-setregset :
      (s : H.State) (r : Registers) → IsStopped s → registers (after_setregset s r) ≡ r
  pub setregset-IsStopped :
      (s : H.State) (r : Registers) → IsStopped s → IsStopped (after_setregset s r)
  -- on its way, and stopped again behind one instruction
  pub stepping : H.State → H.State
  pub after_step : H.State → H.State
  pub step : (s : H.State) → IsStopped s → H.perform (ptrace_step pid) s ≡ (ok tt, stepping s)
  pub stops :
      (s : H.State)
      → IsStopped s
      → H.perform (waitpid pid (some wstopped)) (stepping s) ≡ (ok tt, after_step s)
  pub step-IsStopped : (s : H.State) → IsStopped s → IsStopped (after_step s)

-- A number of steps
abbrev pub steps : {H : Host} {pid : ℤ} → Tracee H pid → ℕ → H.State → H.State
steps T zero s = s
steps T (suc n) s = steps T n (T.after_step s)
