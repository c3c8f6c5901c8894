-- ===== src/Host/Mapping/New.antt =====
-- What the code relies on of mmap(2) with the address 0 and of process_vm_readv(2): the kernel puts the
-- new memory where nothing is mapped, and memory that is mapped can be read.
use process_magic.Prelude.{ℕ, ◌+◌, ◌-◌, ◌^◌, ◌≤◌, ◌<◌, ◌≡◌, ◌≢◌, Bool, true, false, List, ok}
use Prim.Native.Nat.{bit_and}
use process_magic.Int.{ℤ}
use process_magic.Words.Bytes.{slice}
use process_magic.Host.{Host, Registers, Sysno, mmap_no, close_no, openat_no, process_vm_readv}
use process_magic.Host.Machine.{TraceeMachine}
use process_magic.Host.Mapping.{MemoryCalls, behind, outside}

-- A call that has given so many bytes, at the address in x0: the program counter has moved, and what
-- was mapped is outside the new memory and has not changed.
abbrev pub IsPlaced :
    (H : Host) (pid : ℤ) (X : TraceeMachine H pid) (K : MemoryCalls H pid X)
    → (H.State → ℕ → Type 0)
    → H.State
    → H.State
    → ℕ
    → ℕ
    → Type 0
IsPlaced H pid X K IsMapped s t n pc =
    let a = (X.tracee.registers t).regs 0 in
    ((X.tracee.registers t).pc ≢ pc)
    × K.HasSvc t pc
    × K.IsWritable t a n
    × ((b : ℕ)
        → IsMapped s b
        → (outside a n b ≡ true) × IsMapped t b × (X.memory.byte_at t b ≡ X.memory.byte_at s b))
    × ((b : ℕ) → outside a n b ≡ false → IsMapped t b)

pub record NewMemory (H : Host) (pid : ℤ) (X : TraceeMachine H pid) (K : MemoryCalls H pid X)
    : Type 1 where
  -- a page of the tracee holds the byte
  pub IsMapped : H.State → ℕ → Type 0
  -- the machine can give so many bytes, and none is no memory
  pub HasRoom : ℕ → Type 0
  pub HasRoom-positive : (n : ℕ) → HasRoom n → 0 < n
  pub mmap_new :
      (s : H.State) (r : Registers)
      → X.tracee.IsStopped s
      → K.HasSvc s r.pc
      → r.regs 8 ≡ H.sysno mmap_no
      → r.regs 0 ≡ 0
      → HasRoom (r.regs 1)
      → bit_and (r.regs 2) 2 ≡ 2
      → r.regs 3 ≡ 0x22
      → r.regs 4 ≡ 2 ^ 64 - 1
      → r.regs 5 ≡ 0
      → IsPlaced H pid X K IsMapped s (behind H pid X s r) (r.regs 1) r.pc
  pub setregset-IsMapped :
      (s : H.State) (r : Registers) (b : ℕ)
      → X.tracee.IsStopped s
      → IsMapped s b
      → IsMapped (X.tracee.after_setregset s r) b
  pub write-IsMapped :
      (s : H.State) (a : ℕ) (bytes : List ℕ) (b : ℕ)
      → IsMapped s b
      → IsMapped (K.after_write s a bytes) b
  pub readv :
      (s : H.State) (a n : ℕ)
      → ((b : ℕ) → a ≤ b → b < a + n → IsMapped s b)
      → H.perform (process_vm_readv pid a n) s ≡ (ok (slice (X.memory.byte_at s) a n), s)

-- The calls that change no memory of the tracee
abbrev pub is_quiet : Sysno → Bool
is_quiet close_no = true
is_quiet openat_no = true
is_quiet _ = false

-- What the code relies on of close(2) and openat(2), be it that they fail: the tracee's memory is as it
-- was.
pub record QuietCalls (H : Host) (pid : ℤ) (X : TraceeMachine H pid) (K : MemoryCalls H pid X)
    (N : NewMemory H pid X K) : Type 1 where
  pub quiet :
      (n : Sysno) (s : H.State) (r : Registers)
      → is_quiet n ≡ true
      → X.tracee.IsStopped s
      → K.HasSvc s r.pc
      → r.regs 8 ≡ H.sysno n
      → let t = behind H pid X s r in
        ((X.tracee.registers t).pc ≢ r.pc)
        × K.HasSvc t r.pc
        × ((b : ℕ)
            → N.IsMapped s b
            → N.IsMapped t b × (X.memory.byte_at t b ≡ X.memory.byte_at s b))
