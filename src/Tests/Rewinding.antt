-- ===== src/Tests/Rewinding.antt =====
-- A rewind of the process of the small machine.
use process_magic.Prelude.{ℕ, ◌≡◌, refl, arith, List, [], ◌∷◌, ◌++◌, ok, All}
use process_magic.Text.{codes, text_eq, format}
use process_magic.Words.{add_u64}
use process_magic.Myprocfs.{command_line_args}
use process_magic.Myprocfs.Files.{get_command_line}
use process_magic.Terminals.{get_terminal, clear_terminal}
use process_magic.Pcontroller.{
  Session, attach, get_registers, step_and_wait, wait_for_pc, ensure_not_in_syscall,
}
use process_magic.Pcontroller.Syscalls.{
  get_memory_maps, initialize_memory_maps, search_buffer, find_svc, starts_with_svc,
}
use process_magic.Pcontroller.Regions.Injecting.{IsReady}
use process_magic.Daemon.Rewound.{prepare_rewind, Rewinds, rewind_with-IsRewound}
use process_magic.Daemon.Rewound.Arguments.{IsInjectable}
use process_magic.Tests.Machine.{Toy, toy_host, toy_machine, tracee_pid}
use process_magic.Tests.Serving.{vdso_session, vdso_map}
use process_magic.Tests.Mapping.{toy_calls, controller, fuelled}
use process_magic.Tests.Taking.{toy_new, vdso}

abbrev prepared : Session Toy
prepared = (prepare_rewind toy_host tracee_pid vdso_session).1

abbrev shell : List ℕ
shell = codes "sh" ++ (0 ∷ [])

abbrev interactive : List ℕ
interactive = codes "-i" ++ (0 ∷ [])

rewind_prepared :
    (prepare_rewind toy_host tracee_pid vdso_session ≡ (ok (shell ∷ interactive ∷ []), prepared))
    × (get_memory_maps toy_host prepared
        ≡ (ok (vdso_map ∷ []), record { controller = controller; os = prepared.os }))
unfolding prepare_rewind attach ensure_not_in_syscall get_registers step_and_wait wait_for_pc
    get_memory_maps initialize_memory_maps get_terminal clear_terminal get_command_line text_eq
    format command_line_args
rewind_prepared = (refl, refl)

is_ready :
    IsReady toy_host controller
      (toy_machine tracee_pid)
      toy_calls
      toy_new
      fuelled
      8196
      vdso
      prepared.os
unfolding prepare_rewind attach ensure_not_in_syscall get_registers step_and_wait wait_for_pc
    get_terminal clear_terminal get_command_line text_eq format command_line_args search_buffer
    find_svc starts_with_svc add_u64
is_ready = record {
  stopped = refl;
  has_svc = refl;
  mapped = λ b lo hi. omega (arith, hi);
  finds = refl;
}

injectable :
    All
      (IsInjectable toy_host controller
        (toy_machine tracee_pid)
        toy_calls
        toy_new
        fuelled
        8196
        vdso)
      (shell ∷ interactive ∷ [])
injectable = ((omega arith, ground arith), ((omega arith, ground arith), tt))

rewind_with-IsRewound_example :
    Rewinds toy_host controller
      (toy_machine tracee_pid)
      toy_calls
      toy_new
      fuelled
      8196
      vdso
      tracee_pid
      (shell ∷ interactive ∷ [])
      vdso_session
      prepared.os
rewind_with-IsRewound_example =
    rewind_with-IsRewound toy_host controller (toy_machine tracee_pid) toy_calls toy_new fuelled
      8196 vdso tracee_pid shell (interactive ∷ []) vdso_session prepared (prepared.os)
      rewind_prepared.0 rewind_prepared.1 is_ready injectable (omega arith) (omega arith)
