-- ===== src/Host/Mapping.antt =====
-- What the code relies on of munmap(2), mmap(2) and mprotect(2), which a tracee is made to call, and
-- of process_vm_writev(2): a step of a stopped tracee over an `svc` instruction runs the call, moves
-- the program counter on, and leaves the memory outside the region of the call alone.
pub mod New
use process_magic.Prelude.{
  ℕ, ◌+◌, ◌-◌, ◌%◌, ◌^◌, ◌≤◌, ◌<◌, ◌≡◌, ◌≢◌, ◌&&◌, ◌||◌, Bool, true, List, ok, length, get_or, All,
  ltb, leb, if◌then◌else◌,
}
use Prim.Native.Nat.{bit_and}
use process_magic.Int.{ℤ}
use process_magic.Words.Bytes.{IsByte}
use process_magic.Host.{Host, Registers, mmap_no, munmap_no, mprotect_no, process_vm_writev}
use process_magic.Host.Machine.{TraceeMachine}

-- Whole pages of the user's address space, above the lowest address that can be mapped.
abbrev pub IsRegion : ℕ → ℕ → Type 0
IsRegion a n = (a % 4096 ≡ 0) × (n % 4096 ≡ 0) × (0 < n) × (65536 ≤ a) × (a + n ≤ 2 ^ 48)

-- The byte is not of the region, and the region has no byte of another.
abbrev pub outside : ℕ → ℕ → ℕ → Bool
outside a n b = ltb b a || leb (a + n) b

abbrev pub apart : ℕ → ℕ → ℕ → ℕ → Bool
apart a n b m = leb (a + n) b || leb (b + m) a

-- The region that a call names in x0 and x1 can be mapped and has no part in the instruction.
abbrev pub IsCallOn : ℕ → Registers → Type 0
IsCallOn number r =
    (r.regs 8 ≡ number)
    × IsRegion (r.regs 0) (r.regs 1)
    × (apart (r.regs 0) (r.regs 1) r.pc 4 ≡ true)

module _ (H : Host) (pid : ℤ) (X : TraceeMachine H pid) where
  -- the tracee behind a step with these registers
  abbrev pub behind : H.State → Registers → H.State
  behind s r = X.tracee.after_step (X.tracee.after_setregset s r)

  -- The step has moved the program counter, and changed no memory but the region's.
  abbrev pub RanOn : ℕ → ℕ → H.State → Registers → Type 0
  RanOn a n s r =
      ((X.tracee.registers (behind s r)).pc ≢ r.pc)
      × ((b : ℕ) → outside a n b ≡ true → X.memory.byte_at (behind s r) b ≡ X.memory.byte_at s b)

pub record MemoryCalls (H : Host) (pid : ℤ) (X : TraceeMachine H pid) : Type 1 where
  -- an `svc` instruction that can be executed stands at the address
  pub HasSvc : H.State → ℕ → Type 0
  -- no page of the region is mapped; every page of it can be written
  pub IsFree : H.State → ℕ → ℕ → Type 0
  pub IsWritable : H.State → ℕ → ℕ → Type 0
  pub munmap :
      (s : H.State) (r : Registers)
      → X.tracee.IsStopped s
      → HasSvc s r.pc
      → IsCallOn (H.sysno munmap_no) r
      → RanOn H pid X (r.regs 0) (r.regs 1) s r
        × HasSvc (behind H pid X s r) r.pc
        × IsFree (behind H pid X s r) (r.regs 0) (r.regs 1)
  -- Private anonymous memory that can be written, at a free region, where the machine has memory to
  -- give: x3 is MAP_PRIVATE with MAP_ANONYMOUS, x4 is -1 and x5 is 0.
  pub mmap :
      (s : H.State) (r : Registers)
      → X.tracee.IsStopped s
      → HasSvc s r.pc
      → IsCallOn (H.sysno mmap_no) r
      → IsFree s (r.regs 0) (r.regs 1)
      → bit_and (r.regs 2) 2 ≡ 2
      → r.regs 3 ≡ 0x22
      → r.regs 4 ≡ 2 ^ 64 - 1
      → r.regs 5 ≡ 0
      → RanOn H pid X (r.regs 0) (r.regs 1) s r
        × HasSvc (behind H pid X s r) r.pc
        × IsWritable (behind H pid X s r) (r.regs 0) (r.regs 1)
        × ((X.tracee.registers (behind H pid X s r)).regs 0 ≡ r.regs 0)
  -- no memory changes
  pub mprotect :
      (s : H.State) (r : Registers)
      → X.tracee.IsStopped s
      → HasSvc s r.pc
      → IsCallOn (H.sysno mprotect_no) r
      → RanOn H pid X (r.regs 0) 0 s r × HasSvc (behind H pid X s r) r.pc
  pub after_write : H.State → ℕ → List ℕ → H.State
  pub write :
      (s : H.State) (a n : ℕ) (bytes : List ℕ)
      → X.tracee.IsStopped s
      → IsWritable s a n
      → length bytes ≤ n
      → H.perform (process_vm_writev pid bytes a (length bytes)) s
        ≡ (ok (length bytes), after_write s a bytes)
  pub write-IsStopped :
      (s : H.State) (a : ℕ) (bytes : List ℕ)
      → X.tracee.IsStopped s
      → X.tracee.IsStopped (after_write s a bytes)
  pub write-HasSvc :
      (s : H.State) (a : ℕ) (bytes : List ℕ) (pc : ℕ)
      → HasSvc s pc
      → apart a (length bytes) pc 4 ≡ true
      → HasSvc (after_write s a bytes) pc
  pub byte_at-write :
      (s : H.State) (a n : ℕ) (bytes : List ℕ) (b : ℕ)
      → IsWritable s a n
      → length bytes ≤ n
      → All IsByte bytes
      → X.memory.byte_at (after_write s a bytes) b ≡ (
          if leb a b && ltb b (a + length bytes)
          then get_or bytes (b - a) 0
          else X.memory.byte_at s b)
