-- ===== src/Spawn/Order.antt =====
-- teleserver/spawn.rs: the order in which `initialize_process` sets registers and maps memory.
use process_magic.Prelude.{ℕ, ◌≡◌, arith, List, [], ◌∷◌, Error, context, ok, err, length, ◌≤◌}
use process_magic.Int.{ℤ}
use process_magic.Host.{
  Host, Registers, Sysno, mmap_no, nt_prstatus, nt_prfpreg, ptrace_getregset, ptrace_read,
}
use process_magic.Myprocfs.{MemoryMap}
use process_magic.Pcontroller.Syscalls.Execute.{load_args_syscall}
use process_magic.Spawn.{
  child_prot, child_flags, make_syscall, map_page_in_child, write_memory_map, write_memory_maps,
  unmap_existing_memory, set_register_data, initialize_process,
}

module _ (H : Host) (pid : ℤ) (r : Registers) (e : Error) (s t : H.State)
    (getregset : H.perform (ptrace_getregset pid) s ≡ (ok r, s))
    (unreadable : H.perform (ptrace_read pid r.pc) s ≡ (err e, t)) where
  make_syscall-unreadable :
      (sysno : Sysno) (args : List ℕ)
      → length args ≤ 8
      → make_syscall H pid sysno args s ≡ (err (context "PTRACE_PEEKDATA failed" [] e), t)
  unfolding make_syscall
  make_syscall-unreadable sysno args few =
      ground (arith, getregset, load_args_syscall H sysno args r.pc r few, unreadable)

  map_page-unreadable :
      (m : MemoryMap)
      → map_page_in_child H pid m s ≡ (err (context "PTRACE_PEEKDATA failed" [] e), t)
  unfolding map_page_in_child
  map_page-unreadable m = ground (
    arith,
    make_syscall-unreadable mmap_no
        (m.base_address ∷ m.size ∷ child_prot m ∷ child_flags m ∷ 0 ∷ 0 ∷ []) (omega arith),
  )

  write_memory_maps-unreadable :
      (m : MemoryMap) (maps : List MemoryMap)
      → write_memory_maps H pid (m ∷ maps) s ≡ (err (context "PTRACE_PEEKDATA failed" [] e), t)
  unfolding write_memory_maps write_memory_map
  write_memory_maps-unreadable m maps = ground (arith, map_page-unreadable m)

-- If the child's memory has been unmapped and its registers set, and the word at its program
-- counter, which is that of the frozen process, cannot be read, initialize_process fails at the
-- first map: it maps no memory at all, not even that of the program counter.
pub initialize_process-unmapped_pc :
    (H : Host) (pid : ℤ) (gp fp : List ℕ) (m : MemoryMap) (maps : List MemoryMap) (r : Registers)
    (e : Error) (s0 s1 s2 s t : H.State)
    → unmap_existing_memory H pid s0 ≡ (ok tt, s1)
    → set_register_data H pid nt_prstatus gp s1 ≡ (ok tt, s2)
    → set_register_data H pid nt_prfpreg fp s2 ≡ (ok tt, s)
    → H.perform (ptrace_getregset pid) s ≡ (ok r, s)
    → H.perform (ptrace_read pid r.pc) s ≡ (err e, t)
    → initialize_process H pid gp fp (m ∷ maps) s0
      ≡ (err (context "PTRACE_PEEKDATA failed" [] e), t)
unfolding initialize_process
initialize_process-unmapped_pc H pid gp fp m maps r e s0 s1 s2 s t unmapped g f registers
      unreadable =
    ground (
      arith,
      unmapped,
      g,
      f,
      write_memory_maps-unreadable H pid r e s t registers unreadable m maps,
    )
