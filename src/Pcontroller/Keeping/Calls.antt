-- ===== src/Pcontroller/Keeping/Calls.antt =====
-- proctool/pcontroller.rs: system calls that the tracee is made to run keep the controller's pid and
-- its flag; only the cell of the maps is filled.
use process_magic.Prelude.{ℕ, some, List}
use process_magic.Int.{ℤ}
use process_magic.Text.{codes}
use process_magic.Host.{Host, Sysno}
use process_magic.Host.Action.{modify}
use process_magic.Myprocfs.{MemoryMap}
use process_magic.Pcontroller.{Session}
use process_magic.Pcontroller.Syscalls.{
  initialize_memory_maps, get_memory_maps, find_svc_instruction, find_label, prepare_syscall_at_pc,
  prepare_syscall, execute_syscall,
}
use process_magic.Pcontroller.Regions.{map_region, inject_bytes_at_addr, inject_bytes, inject_u64s}
use process_magic.Host.Keeping.{Keeps, Keeps-bind, Keeps-gets, Keeps-Option}
use process_magic.Pcontroller.Keeping.{IsOwner, owner_rules}
use process_magic.Pcontroller.Keeping.Methods.{
  get_registers-Keeps, set_registers-Keeps, ensure_not_in_syscall-Keeps,
}

module _ (H : Host) {pid : ℤ} where
  filled-Keeps :
      (maps : List MemoryMap)
      → Keeps {S = Session H.State}
          (IsOwner pid)
          (modify λ s. record s { controller = record (s.controller) { memory_maps = some maps } })
  filled-Keeps maps = record { at = λ s h. h }

  initialize_memory_maps-Keeps : Keeps (IsOwner pid) (initialize_memory_maps H)
  unfolding initialize_memory_maps
  initialize_memory_maps-Keeps =
      Keeps-bind _ _ (Keeps-gets (λ (s : Session H.State). s.controller.memory_maps)) λ cell.
        Keeps-Option cell _ _ (search (owner_rules, filled-Keeps)) λ maps. search owner_rules

  get_memory_maps-Keeps : Keeps (IsOwner pid) (get_memory_maps H)
  unfolding get_memory_maps
  get_memory_maps-Keeps = search (owner_rules, initialize_memory_maps-Keeps)

  find_svc_instruction-Keeps : Keeps (IsOwner pid) (find_svc_instruction H)
  unfolding find_svc_instruction
  find_svc_instruction-Keeps = Keeps-bind (get_memory_maps H) _ get_memory_maps-Keeps λ maps.
      Keeps-Option (find_label H (codes "[vdso]") maps) _ _ (search owner_rules)
        λ memory_map. search owner_rules

  prepare_syscall_at_pc-Keeps :
      (sysno : Sysno) (args : List ℕ) (pc : ℕ)
      → Keeps (IsOwner pid) (prepare_syscall_at_pc H sysno args pc)
  unfolding prepare_syscall_at_pc
  prepare_syscall_at_pc-Keeps sysno args pc =
      search (owner_rules, get_registers-Keeps, set_registers-Keeps)

  pub prepare_syscall-Keeps :
      (sysno : Sysno) (args : List ℕ) → Keeps (IsOwner pid) (prepare_syscall H sysno args)
  unfolding prepare_syscall
  prepare_syscall-Keeps sysno args =
      search (owner_rules, find_svc_instruction-Keeps, prepare_syscall_at_pc-Keeps)

  pub execute_syscall-Keeps :
      (sysno : Sysno) (args : List ℕ) → Keeps (IsOwner pid) (execute_syscall H sysno args)
  unfolding execute_syscall
  execute_syscall-Keeps sysno args =
      search (owner_rules, prepare_syscall-Keeps, ensure_not_in_syscall-Keeps, get_registers-Keeps)

  pub map_region-Keeps : (size : ℕ) → Keeps (IsOwner pid) (map_region H size)
  unfolding map_region
  map_region-Keeps size = execute_syscall-Keeps _ _

  inject_bytes_at_addr-Keeps :
      (bytes : List ℕ) (addr : ℕ) → Keeps (IsOwner pid) (inject_bytes_at_addr H bytes addr)
  unfolding inject_bytes_at_addr
  inject_bytes_at_addr-Keeps bytes addr = search owner_rules

  pub inject_bytes-Keeps : (bytes : List ℕ) → Keeps (IsOwner pid) (inject_bytes H bytes)
  unfolding inject_bytes
  inject_bytes-Keeps bytes = search (owner_rules, execute_syscall-Keeps, inject_bytes_at_addr-Keeps)

  pub inject_u64s-Keeps : (xs : List ℕ) → Keeps (IsOwner pid) (inject_u64s H xs)
  unfolding inject_u64s
  inject_u64s-Keeps xs = inject_bytes-Keeps _
