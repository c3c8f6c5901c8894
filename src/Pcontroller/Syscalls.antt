-- ===== src/Pcontroller/Syscalls.antt =====
-- proctool/pcontroller.rs: system calls that the tracee is made to run, and the search for an `svc`
-- instruction to run them with.
pub mod Search
pub mod Loaded
pub mod Execute
pub mod Cached
use process_magic.Prelude.{
  ℕ, zero, suc, ◌+◌, ◌-◌, ◌^◌, Bool, true, false, ◌&&◌, Option, none, some, List, [], ◌∷◌, ◌++◌,
  length, take, replicate, Result, ok, err, panic, message, Error, unwrap, text, ltb, leb, ◌==◌,
  if◌then◌else◌,
}
use process_magic.Int.{ℤ}
use process_magic.Text.{Text, codes, text_eq}
use process_magic.Words.{Profile, add_u64, sub_u64}
use process_magic.Host.{Host, Registers, Sysno, process_vm_readv}
use process_magic.Host.Action.{Action, pure, from, gets, fail, ◌>>=◌, ◌>>◌, modify}
use process_magic.Myprocfs.{MemoryMap}
use process_magic.Myprocfs.Files.{read_memory_maps}
use process_magic.Pcontroller.{
  ProcessController, Session, Method, os, self_pid, get_registers, set_registers,
  ensure_not_in_syscall,
}

-- A write to an array of 31 registers; an index out of bounds panics.
abbrev pub update : (ℕ → ℕ) → ℕ → ℕ → ℕ → ℕ
update regs i x j = if i == j then x else regs j

-- The loop over `args`. An `i64` is carried as its 64 bits, which `as u64` keeps.
unfoldable pub load_args : ℕ → List ℕ → (ℕ → ℕ) → Result (ℕ → ℕ)
load_args i [] regs = ok regs
load_args i (a ∷ args) regs = if ltb i 31 then load_args (suc i) args (update regs i a) else panic

-- -1 as an `i64`
abbrev pub minus_one : ℕ
minus_one = 2 ^ 64 - 1

-- little-endian representation of the instruction `svc #0`
abbrev pub svc_bytes : List ℕ
svc_bytes = 0x01 ∷ 0x00 ∷ 0x00 ∷ 0xd4 ∷ []

-- Whether a buffer begins with the instruction.
unfoldable pub starts_with_svc : List ℕ → Bool
starts_with_svc (b0 ∷ b1 ∷ b2 ∷ b3 ∷ bs) =
    (b0 == 0x01) && (b1 == 0x00) && (b2 == 0x00) && (b3 == 0xd4)
starts_with_svc _ = false

-- `for i in 0..buffer.len() - 3`: the index of the first instruction, for the rounds left, where
-- `bs` is the buffer from `i` on.
unfoldable pub find_svc : ℕ → ℕ → List ℕ → Option ℕ
find_svc zero i bs = none
find_svc (suc rounds) i [] = none
find_svc (suc rounds) i (b ∷ bs) =
    if starts_with_svc (b ∷ bs) then some i else find_svc rounds (i + 1) bs

-- A buffer of `size` zeros into which `read` was read.
abbrev pub buffer_of : ℕ → List ℕ → List ℕ
buffer_of size read = take size read ++ replicate (size - length read) 0

-- The part of `find_svc_instruction_in_map` behind the read. With fewer than three bytes the bound
-- of the loop overflows; where that wraps around, the first index out of range panics.
unfoldable pub search_buffer : Profile → ℕ → List ℕ → Result ℕ
search_buffer profile base buffer =
    if ltb (length buffer) 3 then panic else elim (find_svc (length buffer - 3) 0 buffer) [
      | none ↦ err (message "could not find svc instruction in segment" [])
      | some i ↦ add_u64 profile base i
    ]

module _ (H : Host) where
  unfoldable pub find_svc_instruction_in_map : ℤ → MemoryMap → Action H.State ℕ
  find_svc_instruction_in_map pid memory_map = do
    read ← H.perform (process_vm_readv pid memory_map.base_address memory_map.size)
    if length read == 0
        then fail "failed to read any data" []
        else from (search_buffer H.profile memory_map.base_address (buffer_of memory_map.size read))

  -- `initialize_memory_maps`: the file is read once.
  unfoldable pub initialize_memory_maps : Method H (Unit {0})
  initialize_memory_maps = do
    cell ← gets (λ s. s.controller.memory_maps)
    elim cell [
      | some maps ↦ pure tt
      | none ↦ do
        pid ← self_pid H
        memory_maps ← os H (read_memory_maps H pid)
        modify (λ s. record s {
          controller = record (s.controller) { memory_maps = some memory_maps };
        })
    ]

  unfoldable pub get_memory_maps : Method H (List MemoryMap)
  unfolding initialize_memory_maps
  get_memory_maps = do
    initialize_memory_maps
    cell ← gets (λ s. s.controller.memory_maps)
    from (unwrap cell)

  -- The first mapping with a label.
  unfoldable pub find_label : Text → List MemoryMap → Option MemoryMap
  find_label label [] = none
  find_label label (memory_map ∷ maps) =
      if text_eq memory_map.label label then some memory_map else find_label label maps

  unfoldable pub find_svc_instruction : Method H ℕ
  find_svc_instruction = do
    maps ← get_memory_maps
    elim (find_label (codes "[vdso]") maps) [
      | none ↦ fail "could not find [vdso] segment in binary" []
      | some memory_map ↦ do pid ← self_pid H; os H (find_svc_instruction_in_map pid memory_map)
    ]

  unfoldable pub get_segment_address : Text → Method H (ℕ × ℕ)
  get_segment_address label = do
    maps ← get_memory_maps
    elim (find_label label maps) [
      | none ↦ fail "could not find [vvar] address" []
      | some memory_map ↦ pure (memory_map.base_address, memory_map.size)
    ]

  unfoldable pub prepare_syscall_at_pc : Sysno → List ℕ → ℕ → Method H (Unit {0})
  prepare_syscall_at_pc sysno args pc = do
    registers ← get_registers H
    regs ← from (load_args 0 args (update registers.regs 8 (H.sysno sysno)))
    set_registers H (record registers { regs = regs; pc = pc })

  unfoldable pub prepare_syscall : Sysno → List ℕ → Method H (Unit {0})
  prepare_syscall sysno args = do
    new_pc ← find_svc_instruction
    prepare_syscall_at_pc sysno args new_pc

  unfoldable pub execute_syscall : Sysno → List ℕ → Method H ℕ
  execute_syscall sysno args = do
    prepare_syscall sysno args
    ensure_not_in_syscall H
    registers ← get_registers H
    pure (registers.regs 0)

  unfoldable pub execute_syscall_at_pc : Sysno → List ℕ → ℕ → Method H ℕ
  execute_syscall_at_pc sysno args pc = do
    prepare_syscall_at_pc sysno args pc
    ensure_not_in_syscall H
    registers ← get_registers H
    pure (registers.regs 0)
