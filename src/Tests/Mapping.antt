-- ===== src/Tests/Mapping.antt =====
-- The theorems on what is put back into a child, applied to the small machine.
use process_magic.Prelude.{
  ℕ, zero, suc, ◌+◌, ◌-◌, ◌%◌, ◌≡◌, ◌≢◌, refl, ap, sym, ◌∙◌, Bool, ◌<◌, true, false, [], ◌∷◌, arith,
  ok, length, get_or, leb, ltb, ◌&&◌, if◌then◌else◌, All, List,
}
use process_magic.Text.{text_eq}
use process_magic.Words.{add_u64}
use process_magic.Words.Bytes.{IsByte}
use process_magic.Host.{Registers}
use process_magic.Host.Mapping.{MemoryCalls, RanOn, behind}
use process_magic.Myprocfs.{MemoryMap}
use process_magic.Pcontroller.{
  ProcessController, get_registers, set_registers, step_and_wait, wait_for_pc,
  ensure_not_in_syscall,
}
use process_magic.Pcontroller.Syscalls.{
  execute_syscall, prepare_syscall, find_svc_instruction, get_memory_maps, initialize_memory_maps,
  find_label, find_svc_instruction_in_map, search_buffer, find_svc, starts_with_svc,
  prepare_syscall_at_pc, load_args,
}
use process_magic.Pcontroller.Regions.{map_svc_region, highest_end, repeat_svc}
use process_magic.Pcontroller.Regions.Written.{IsRestorable, HasBytes}
use process_magic.Cryogenics.{ProcessState, thaw_with, saved_registers}
use process_magic.Cryogenics.Thawed.{let_go, thaw_with-HasBytes}
use process_magic.Tests.Machine.{
  Toy, Wait, rounds, advance, toy_host, toy_machine, toy_fill, tracee_pid, bytes_of,
}
use process_magic.Tests.Serving.{vdso_session}

moved_on : (n : ℕ) → n + 4 ≢ n
moved_on n e = omega arith

advanced :
    (w : Wait) (r : Registers) → w ≡ rounds 0 → advance w r ≡ (rounds 0, record r { pc = r.pc + 4 })
advanced w r e = rw e

abbrev pub IsReady : Toy → ℕ → Type 0
IsReady s pc = s.waiting ≡ rounds 0

-- a step over a call, at a machine that does not wait
pub toy-RanOn :
    (s : Toy) (r : Registers) (a n : ℕ)
    → IsReady s r.pc
    → RanOn toy_host tracee_pid (toy_machine tracee_pid) a n s r
toy-RanOn s r a n i = (
  λ e. moved_on r.pc (sym (ap (λ (p : Wait × Registers). p.1.pc) (advanced s.waiting r i)) ∙ e),
  λ b o. refl,
)

pub toy-IsReady :
    (s : Toy) (r : Registers)
    → IsReady s r.pc
    → IsReady (behind toy_host tracee_pid (toy_machine tracee_pid) s r) r.pc
toy-IsReady s r i = ap (λ (p : Wait × Registers). p.0) (advanced s.waiting r i)

pub toy_x0 :
    (s : Toy) (r : Registers)
    → IsReady s r.pc
    → 0 < r.regs 0
    → (behind toy_host tracee_pid (toy_machine tracee_pid) s r).at_regs.regs 0 ≡ r.regs 0
toy_x0 s r i at =
    let e : (advance s.waiting r).1.regs 0 ≡ r.regs 0 =
      ap (λ (p : Wait × Registers). p.1.regs 0) (advanced s.waiting r i) in
    ground (arith, at, e)

get_or-bytes :
    (bytes : List ℕ) (k : ℕ) → All IsByte bytes → get_or bytes k 0 % 256 ≡ get_or bytes k 0
get_or-bytes [] k h = refl
get_or-bytes (x ∷ bytes) zero h = omega (arith, h.0)
get_or-bytes (x ∷ bytes) (suc k) h = get_or-bytes bytes k h.1

pub toy_filled :
    (s : Toy) (a : ℕ) (bytes : List ℕ) (b : ℕ)
    → All IsByte bytes
    → bytes_of (toy_fill s a bytes) b
      ≡ (if leb a b && ltb b (a + length bytes) then get_or bytes (b - a) 0 else bytes_of s b)
toy_filled s a bytes b bs = ground (arith, get_or-bytes bytes (b - a) bs)

abbrev pub toy_calls : MemoryCalls toy_host tracee_pid (toy_machine tracee_pid)
toy_calls = record {
  HasSvc = IsReady;
  IsFree = λ s a n. Unit {0};
  IsWritable = λ s a n. Unit {0};
  munmap = λ s r h i on. (toy-RanOn s r _ _ i, toy-IsReady s r i, tt);
  mmap = λ s r h i on free prot x3 x4 x5.
      (toy-RanOn s r _ _ i, toy-IsReady s r i, tt, toy_x0 s r i (omega (arith, on.1)));
  mprotect = λ s r h i on. (toy-RanOn s r _ _ i, toy-IsReady s r i);
  after_write = toy_fill;
  write = λ s a n bytes h w few. refl;
  write-IsStopped = λ s a bytes h. h;
  write-HasSvc = λ s a bytes pc h o. h;
  byte_at-write = λ s a n bytes b w few bs. toy_filled s a bytes b bs;
}

abbrev map_of : ℕ → Bool → List ℕ → MemoryMap
map_of base writable bytes = record {
  base_address = base;
  size = 4096;
  label = [];
  readable = true;
  writable = writable;
  executable = false;
  private = true;
  bytes = bytes;
}

abbrev state : ProcessState
state = record {
  memory_maps = map_of 65536 false (1 ∷ 2 ∷ 3 ∷ []) ∷ map_of 131072 true (9 ∷ []) ∷ [];
  regs = λ i. i + 7;
  sp = 4096;
  pc = 65536;
  pstate = 0;
}

abbrev pub controller : ProcessController
controller = vdso_session.controller

pub fuelled : 0 < 5
fuelled = omega arith

abbrev pub ready : Toy
ready = (map_svc_region toy_host vdso_session).1.os

pub svc_region :
    (map_svc_region toy_host vdso_session
      ≡ (ok 12296, record { controller = vdso_session.controller; os = ready }))
    × (ready.stopped ≡ true)
    × IsReady ready 12296
unfolding map_svc_region get_memory_maps initialize_memory_maps highest_end add_u64 execute_syscall
    prepare_syscall find_svc_instruction find_label text_eq find_svc_instruction_in_map
    search_buffer find_svc starts_with_svc prepare_syscall_at_pc load_args get_registers
    set_registers step_and_wait wait_for_pc ensure_not_in_syscall repeat_svc
svc_region = (refl, refl, refl)

restorable : All (IsRestorable 12296) state.memory_maps
restorable = (
  (omega arith, refl, omega arith, omega arith),
  ((omega arith, refl, omega arith, omega arith), tt),
)

thaw_with-HasBytes_example :
    (t : Toy) × (thaw_with toy_host state vdso_session
      ≡ let_go toy_host controller
          (toy_machine tracee_pid)
          toy_calls
          fuelled
          12296
          (record { controller = vdso_session.controller; os = t }))
    × (t.stopped ≡ true)
    × (t.at_regs ≡ saved_registers toy_host state)
    × All (HasBytes toy_host controller (toy_machine tracee_pid) toy_calls t) state.memory_maps
thaw_with-HasBytes_example =
    thaw_with-HasBytes toy_host controller (toy_machine tracee_pid) toy_calls fuelled 12296 state
      vdso_session ready svc_region.0 svc_region.1 svc_region.2 restorable ((refl, tt), (tt, tt))
