-- ===== src/Host/Machine.antt =====
-- What the code relies on of a tracee's registers and its memory together (ptrace(2)): a write of
-- one leaves the other alone.
use process_magic.Prelude.{ℕ, ◌≡◌}
use process_magic.Int.{ℤ}
use process_magic.Host.{Host, Registers}
use process_magic.Host.Memory.{TraceeMemory}
use process_magic.Host.Tracee.{Tracee}

pub record TraceeMachine (H : Host) (pid : ℤ) : Type 1 where
  pub tracee : Tracee H pid
  pub memory : TraceeMemory H pid
  pub registers-poke :
      (s : H.State) (a w : ℕ)
      → tracee.IsStopped s
      → tracee.registers (memory.after_poke s a w) ≡ tracee.registers s
  pub poke-IsStopped :
      (s : H.State) (a w : ℕ) → tracee.IsStopped s → tracee.IsStopped (memory.after_poke s a w)
  pub byte_at-setregset :
      (s : H.State) (r : Registers) (b : ℕ)
      → tracee.IsStopped s
      → memory.byte_at (tracee.after_setregset s r) b ≡ memory.byte_at s b
  pub setregset-Accessible :
      (s : H.State) (r : Registers) (a : ℕ)
      → tracee.IsStopped s
      → memory.Accessible s a
      → memory.Accessible (tracee.after_setregset s r) a
