-- ===== src/Pcontroller/Regions.antt =====
-- proctool/pcontroller.rs: memory that the tracee is made to map, unmap and fill.
pub mod Placement
pub mod Injected
pub mod Written
pub mod Unmapping
pub mod Restored
pub mod Injecting
use process_magic.Prelude.{
  ℕ, zero, suc, ◌+◌, ◌-◌, ◌*◌, ◌/◌, Bool, true, false, not, Option, none, some, List, [], ◌∷◌, ◌++◌,
  length, Result, ok, num, ltb, ◌==◌, if◌then◌else◌,
}
use Prim.Native.Nat.{bit_or}
use process_magic.Text.{Text, codes}
use process_magic.Words.{add_u64}
use process_magic.Words.Bytes.{to_le}
use process_magic.Host.{Host, Sysno, mmap_no, munmap_no, mprotect_no, process_vm_writev}
use process_magic.Host.Action.{Action, pure, from, fail, labelled, ignore_err, ◌>>=◌, ◌>>◌}
use process_magic.Myprocfs.{MemoryMap}
use process_magic.Pcontroller.{Method, os, self_pid}
use process_magic.Pcontroller.Syscalls.{
  execute_syscall, execute_syscall_at_pc, get_memory_maps, get_segment_address, minus_one,
  svc_bytes,
}

-- The constants of libc on Linux.
abbrev pub prot_read : ℕ
prot_read = 1

abbrev pub prot_write : ℕ
prot_write = 2

abbrev pub prot_exec : ℕ
prot_exec = 4

abbrev pub map_private : ℕ
map_private = 2

abbrev pub map_anonymous : ℕ
map_anonymous = 0x20

-- `MAP_FAILED as u64`
abbrev pub map_failed : ℕ
map_failed = minus_one

-- The loop over the maps in `map_svc_region`
unfoldable pub highest_end : (ℕ → ℕ → Result ℕ) → List MemoryMap → ℕ → Result ℕ
highest_end add [] highest_addr = ok highest_addr
highest_end add (memory_map ∷ maps) highest_addr =
    elim (add memory_map.base_address memory_map.size) [
      | ok end ↦ highest_end add maps (if ltb end highest_addr then highest_addr else end)
      | Result.err e ↦ Result.err e
      | Result.panic ↦ Result.panic
      | Result.unfinished ↦ Result.unfinished
    ]

-- `for _ in 0..n { bytes.extend_from_slice(&SVC_BYTES[..]) }`
unfoldable pub repeat_svc : ℕ → List ℕ
repeat_svc zero = []
repeat_svc (suc n) = svc_bytes ++ repeat_svc n

-- The three `if`s that gather the protection of a map.
unfoldable pub prot_of : MemoryMap → ℕ
prot_of memory_map =
    let prot : ℕ = if memory_map.readable then bit_or 0 prot_read else 0 in
    let prot : ℕ = if memory_map.writable then bit_or prot prot_write else prot in
    if memory_map.executable then bit_or prot prot_exec else prot

-- `extend_from_slice(&x.to_le_bytes())` for each number
unfoldable pub u64s_bytes : List ℕ → List ℕ
unfolding to_le
u64s_bytes [] = []
u64s_bytes (x ∷ xs) = to_le 8 x ++ u64s_bytes xs

module _ (H : Host) where
  unfoldable pub map_region : ℕ → Method H ℕ
  map_region size = execute_syscall H mmap_no (
      0
      ∷ size
      ∷ bit_or (bit_or prot_read prot_write) prot_exec
      ∷ bit_or map_private map_anonymous
      ∷ minus_one
      ∷ 0
      ∷ [])

  unfoldable pub map_svc_region : Method H ℕ
  map_svc_region = do
    maps ← get_memory_maps H
    highest_addr ← from (highest_end (add_u64 H.profile) maps 0)
    addr ← from (add_u64 H.profile highest_addr 4096)
    r ← execute_syscall H mmap_no (
        addr
        ∷ 4096
        ∷ bit_or (bit_or prot_read prot_write) prot_exec
        ∷ bit_or map_private map_anonymous
        ∷ minus_one
        ∷ 0
        ∷ [])
    if r == map_failed then fail "mmap failed at {:#x} (size={})" (num addr ∷ num 4096 ∷ []) else do
      let bytes = repeat_svc (4096 / length svc_bytes)
      pid ← self_pid H
      nwritten ←
          labelled "process_vm_writev failed"
            (os H (H.perform (process_vm_writev pid bytes addr (length bytes))))
      if nwritten == 0 then fail "failed to write data" [] else pure addr

  unfoldable pub unmap_existing_regions : ℕ → Method H (Unit {0})
  unmap_existing_regions svc_region_addr = do
    vvar ← get_segment_address H (codes "[vvar]")
    vdso ← get_segment_address H (codes "[vdso]")
    vdso_end ← from (add_u64 H.profile vdso.0 vdso.1)
    ignore_err (execute_syscall_at_pc H munmap_no (vdso_end ∷ svc_region_addr ∷ []) svc_region_addr)
    ignore_err (execute_syscall_at_pc H munmap_no (0 ∷ vvar.0 ∷ []) svc_region_addr)

  -- The part of `map_and_fill_region` that writes the data, if there are any.
  unfoldable pub fill_region : MemoryMap → Method H (Unit {0})
  fill_region memory_map =
      if ltb 0 (length memory_map.bytes)
      then (do
        pid ← self_pid H
        nwritten ← labelled "process_vm_writev failed" (
            os H (
              H.perform (
                process_vm_writev pid memory_map.bytes memory_map.base_address
                  (length memory_map.bytes))))
        if nwritten == 0 then fail "failed to write data" [] else pure tt)
      else pure tt

  -- The part that takes a write permission away again.
  unfoldable pub protect_region : ℕ → MemoryMap → Method H (Unit {0})
  unfolding prot_of
  protect_region svc_region_addr memory_map =
      if not memory_map.writable
      then execute_syscall_at_pc H mprotect_no
          (memory_map.base_address ∷ memory_map.size ∷ prot_of memory_map ∷ []) svc_region_addr
        >> pure tt
      else pure tt

  unfoldable pub map_and_fill_region : ℕ → MemoryMap → Method H (Unit {0})
  map_and_fill_region svc_region_addr memory_map = do
    execute_syscall_at_pc H munmap_no (memory_map.base_address ∷ memory_map.size ∷ [])
        svc_region_addr
    r ←
        execute_syscall_at_pc H mmap_no
          (memory_map.base_address
            ∷ memory_map.size
            ∷ bit_or (prot_of memory_map) prot_write
            ∷ bit_or map_anonymous map_private
            ∷ minus_one
            ∷ 0
            ∷ [])
          svc_region_addr
    if r == minus_one
        then fail "mmap failed at {:#x} (size={})"
            (num memory_map.base_address ∷ num memory_map.size ∷ [])
        else do fill_region memory_map; protect_region svc_region_addr memory_map

  unfoldable pub inject_bytes_at_addr : List ℕ → ℕ → Method H ℕ
  inject_bytes_at_addr bytes addr = do
    pid ← self_pid H
    nwritten ← os H (H.perform (process_vm_writev pid bytes addr (length bytes)))
    if nwritten == 0 then fail "failed to write data" [] else pure addr

  unfoldable pub inject_bytes : List ℕ → Method H ℕ
  unfolding inject_bytes_at_addr
  inject_bytes bytes = do
    addr ← execute_syscall H mmap_no (
        0
        ∷ length bytes
        ∷ bit_or prot_read prot_write
        ∷ bit_or map_anonymous map_private
        ∷ minus_one
        ∷ 0
        ∷ [])
    inject_bytes_at_addr bytes addr

  unfoldable pub inject_u64s : List ℕ → Method H ℕ
  unfolding inject_bytes u64s_bytes
  inject_u64s xs = inject_bytes (u64s_bytes xs)
