-- ===== src/Spawn.antt =====
-- teleserver/spawn.rs: a process restored from register data and memory maps that came over the
-- network.
pub mod Restore
pub mod Unmapped
pub mod Route
pub mod Telefork
pub mod Order
use process_magic.Prelude.{
  ℕ, zero, suc, ◌+◌, ◌<◌, Bool, true, false, ◌&&◌, String, List, [], ◌∷◌, Option, none, some,
  length, Result, ok, err, panic, unfinished, Error, message, num, ltb, leb, not, ◌==◌,
  if◌then◌else◌, ◌++◌,
}
use Prim.Native.Nat.{bit_or}
use process_magic.Int.{ℤ}
use process_magic.Text.{codes}
use process_magic.Words.{add_u64}
use process_magic.Host.{
  Host, Registers, RegisterSet, nt_prstatus, nt_prfpreg, Sysno, mmap_no, munmap_no, fork, parent,
  child, waitpid, wstopped, ptrace_getregset, ptrace_setregset, ptrace_setregset_raw, ptrace_read,
  ptrace_write, ptrace_step, ptrace_detach, ptrace_traceme, raise, sigstop, process_vm_writev,
  open_mem, seek, write,
}
use process_magic.Host.Action.{Action, pure, from, fail, labelled, ignore_err, ◌>>=◌, ◌>>◌}
use process_magic.Myprocfs.{MemoryMap}
use process_magic.Myprocfs.Files.{proc_path, read_memory_maps}
use process_magic.Pcontroller.Syscalls.{update, load_args}
use process_magic.Pcontroller.Regions.{map_failed}

-- `libc::MAP_SHARED` and `libc::MAP_FIXED`
abbrev pub map_shared : ℕ
map_shared = 1

abbrev pub map_fixed : ℕ
map_fixed = 0x10

-- The size of `user_regs_struct` on arm64: 34 words
abbrev pub regs_size : ℕ
regs_size = 272

-- The instruction `svc #0`, as it is written: a word of eight bytes.
abbrev pub svc_word : ℕ
svc_word = 0xd4000001

unfoldable pub child_prot : MemoryMap → ℕ
child_prot memory_map =
    let prot : ℕ = if memory_map.readable then bit_or 0 1 else 0 in
    let prot : ℕ = if memory_map.writable then bit_or prot 2 else prot in
    if memory_map.executable then bit_or prot 4 else prot

-- `if memory_map.private { flags |= MAP_SHARED; } flags |= MAP_FIXED;`
unfoldable pub child_flags : MemoryMap → ℕ
child_flags memory_map =
    let flags : ℕ = if memory_map.private then bit_or 0 map_shared else 0 in bit_or flags map_fixed

module _ (H : Host) where
  unfoldable pub make_syscall : ℤ → Sysno → List ℕ → Action H.State ℕ
  make_syscall pid sysno args = do
    old_registers ← labelled "PTRACE_GETREGSET failed" (H.perform (ptrace_getregset pid))
    regs ← from (load_args 0 args (update old_registers.regs 8 (H.sysno sysno)))
    let p = old_registers.pc
    old_data ← labelled "PTRACE_PEEKDATA failed" (H.perform (ptrace_read pid p))
    labelled "PTRACE_POKEDATA failed (injecting syscall)" (H.perform (ptrace_write pid p svc_word))
    labelled "PTRACE_SETREGSET failed (setting syscall parameters)"
        (H.perform (ptrace_setregset pid (record old_registers { regs = regs })))
    labelled "PTRACE_SINGLESTEP failed" (H.perform (ptrace_step pid))
    labelled "failed to waitpid" (H.perform (waitpid pid (some wstopped)))
    labelled "PTRACE_POKEDATA failed (restoring old data)" (H.perform (ptrace_write pid p old_data))
    registers_after ←
        labelled "PTRACE_GETREGSET failed (checking syscall return)"
          (H.perform (ptrace_getregset pid))
    labelled "PTRACE_SETREGSET failed (restoring old registers)"
        (H.perform (ptrace_setregset pid old_registers))
    pure (registers_after.regs 0)

  unfoldable pub unmap_one : ℤ → MemoryMap → Action H.State (Unit {0})
  unmap_one pid memory_map = do
    code ← make_syscall pid munmap_no (memory_map.base_address ∷ memory_map.size ∷ [])
    if not (code == 0) then fail "syscall to munmap failed" [] else pure tt

  -- Whether the map holds the program counter. The sum is computed only if the map begins at or
  -- below it.
  unfoldable pub holds_pc : ℕ → MemoryMap → Result Bool
  holds_pc pc memory_map =
      if leb memory_map.base_address pc
      then elim (add_u64 H.profile memory_map.base_address memory_map.size) [
        | ok end ↦ ok (ltb pc end)
        | err e ↦ err e
        | panic ↦ panic
        | unfinished ↦ unfinished
      ]
      else ok false

  -- The loop of `unmap_existing_memory`
  unfoldable pub unmap_maps : ℤ → ℕ → List MemoryMap → Action H.State (Unit {0})
  unmap_maps pid pc [] = pure tt
  unmap_maps pid pc (memory_map ∷ memory_maps) = do
    skipped ← from (holds_pc pc memory_map)
    if skipped
        then pure tt
        else if memory_map.size == 2097152
        then pure tt
        else ignore_err (unmap_one pid memory_map)
    unmap_maps pid pc memory_maps

  unfoldable pub unmap_existing_memory : ℤ → Action H.State (Unit {0})
  unfolding unmap_maps
  unmap_existing_memory pid = do
    memory_maps ← read_memory_maps H pid
    process_registers ← labelled "PTRACE_GETREGSET failed" (H.perform (ptrace_getregset pid))
    unmap_maps pid process_registers.pc memory_maps

  -- `set_registers`
  unfoldable pub set_register_data : ℤ → RegisterSet → List ℕ → Action H.State (Unit {0})
  set_register_data pid kind register_data =
      if not (regs_size == length register_data)
      then fail "expected length of register data to be {} but it was {}"
          (num regs_size ∷ num (length register_data) ∷ [])
      else labelled "PTRACE_SETREGSET failed"
          (H.perform (ptrace_setregset_raw pid kind register_data))

  unfoldable pub map_page_in_child : ℤ → MemoryMap → Action H.State (Unit {0})
  unfolding child_prot child_flags
  map_page_in_child pid memory_map = do
    r ← make_syscall pid mmap_no (
        memory_map.base_address
        ∷ memory_map.size
        ∷ child_prot memory_map
        ∷ child_flags memory_map
        ∷ 0
        ∷ 0
        ∷ [])
    if r == map_failed then fail "mmap failed" [] else pure tt

  -- The second way to write the data, through /proc/PID/mem; its last failure is only printed.
  unfoldable pub write_through_mem : ℤ → MemoryMap → Action H.State (Unit {0})
  write_through_mem pid memory_map = do
    f ← H.perform (open_mem (proc_path pid (codes "mem")))
    H.perform (seek f memory_map.base_address)
    ignore_err (H.perform (write f memory_map.bytes))

  unfoldable pub write_memory_map : ℤ → MemoryMap → Action H.State (Unit {0})
  write_memory_map pid memory_map = map_page_in_child pid memory_map >> λ s.
      let (result, t) =
        H.perform (process_vm_writev pid memory_map.bytes memory_map.base_address memory_map.size)
          s in
      elim result [
        | ok n ↦ (ok tt, t)
        | err e ↦ write_through_mem pid memory_map t
        | panic ↦ (panic, t)
        | unfinished ↦ (unfinished, t)
      ]

  unfoldable pub write_memory_maps : ℤ → List MemoryMap → Action H.State (Unit {0})
  write_memory_maps pid [] = pure tt
  write_memory_maps pid (memory_map ∷ memory_maps) = do
    write_memory_map pid memory_map
    write_memory_maps pid memory_maps

  unfoldable pub initialize_process :
      ℤ → List ℕ → List ℕ → List MemoryMap → Action H.State (Unit {0})
  unfolding write_memory_maps
  initialize_process pid gp_register_data fp_register_data memory_maps = do
    unmap_existing_memory pid
    set_register_data pid nt_prstatus gp_register_data
    set_register_data pid nt_prfpreg fp_register_data
    write_memory_maps pid memory_maps

  -- The parent detaches from the child whether or not it could be initialised, and only then looks
  -- at the result.
  unfoldable pub spawn_process : List ℕ → List ℕ → List MemoryMap → Action H.State (Unit {0})
  spawn_process gp_register_data fp_register_data memory_maps = do
    forked ← H.perform fork
    elim forked [
      | parent child_pid ↦ do
        labelled "failed to waitpid" (H.perform (waitpid child_pid (some wstopped)))
        λ s.
            detached child_pid
              (initialize_process child_pid gp_register_data fp_register_data memory_maps s)
      | child ↦ do
        labelled "failed to ptrace child" (H.perform ptrace_traceme)
        H.perform (raise sigstop)
    ]
    where
      detached : ℤ → Result (Unit {0}) × H.State → Result (Unit {0}) × H.State
      detached pid (panic, t) = (panic, t)
      detached pid (unfinished, t) = (unfinished, t)
      detached pid (ok a, t) = (H.perform (ptrace_detach pid (some sigstop)) >> pure tt) t
      detached pid (err e, t) = (H.perform (ptrace_detach pid (some sigstop)) >> from (err e)) t
