-- ===== src/Tests/Refusing.antt =====
-- A redirect of the process of the small machine to what is no terminal.
use process_magic.Prelude.{◌≡◌, refl, arith, false, [], ◌∷◌, message, text, ok, err}
use process_magic.Text.{
  codes, starts_with, text_eq, format, splitn, is_whitespace, parse_unsigned, trim,
}
use process_magic.Utf8.{from_utf8}
use process_magic.Myprocfs.{parse_map_line, parse_byte_range, parse_permissions}
use process_magic.Words.{add_u64, sub_u64}
use process_magic.Words.Bytes.{from_le}
use process_magic.Pcontroller.{Session, attach, get_registers, current_syscall}
use process_magic.Pcontroller.Stdin.{cancel_pending_read}
use process_magic.Pcontroller.Syscalls.{
  get_memory_maps, initialize_memory_maps, search_buffer, find_svc, starts_with_svc,
}
use process_magic.Pcontroller.Regions.Injecting.{IsReady}
use process_magic.Myprocfs.Files.{read_memory_maps}
use process_magic.Myprocfs.Lines.{lines, line_text, parse_map_lines}
use process_magic.Daemon.{run_redirect}
use process_magic.Daemon.Rewound.Arguments.{KeepsMapped}
use process_magic.Daemon.Redirected.Refused.{closed_at, let_go, run_redirect-refused}
use process_magic.Tests.Machine.{Toy, toy_host, toy_machine, tracee_pid, machine_at_rest, session}
use process_magic.Tests.Serving.{vdso_map}
use process_magic.Tests.Mapping.{toy_calls, controller, fuelled}
use process_magic.Tests.Taking.{toy_new, vdso}
use process_magic.Tests.Redirecting.{toy_quiet}

abbrev attached : Session Toy
attached = (attach toy_host (session machine_at_rest)).1

abbrev cancelled : Session Toy
cancelled = (cancel_pending_read toy_host attached).1

started :
    (attach toy_host (session machine_at_rest) ≡ (ok tt, attached))
    × (cancel_pending_read toy_host attached ≡ (ok tt, cancelled))
    × (get_registers toy_host cancelled ≡ (ok cancelled.os.at_regs, cancelled))
unfolding attach cancel_pending_read current_syscall from_le get_registers
started = (refl, refl, refl)

maps_read :
    get_memory_maps toy_host cancelled
    ≡ (ok (vdso_map ∷ []), record { controller = controller; os = cancelled.os })
unfolding attach cancel_pending_read current_syscall from_le get_registers get_memory_maps
    initialize_memory_maps read_memory_maps lines parse_map_lines text_eq format line_text from_utf8
    parse_map_line splitn is_whitespace parse_byte_range parse_unsigned sub_u64 parse_permissions
    trim
maps_read = refl

is_ready :
    IsReady toy_host controller
      (toy_machine tracee_pid)
      toy_calls
      toy_new
      fuelled
      8196
      vdso
      cancelled.os
unfolding attach cancel_pending_read current_syscall from_le get_registers search_buffer find_svc
    starts_with_svc add_u64
is_ready = record {
  stopped = refl;
  has_svc = refl;
  mapped = λ b lo hi. omega (arith, hi);
  finds = refl;
}

no_terminal :
    (starts_with (codes "tty1") (codes "/dev/pts/") ≡ false)
    × (starts_with (codes "tty1") (codes "pts/") ≡ false)
unfolding starts_with
no_terminal = (refl, refl)

-- behind the closes
abbrev silent : Toy
silent =
    closed_at toy_host controller (toy_machine tracee_pid) toy_calls toy_new toy_quiet fuelled 8196
      vdso cancelled.os

run_redirect-refused_example :
    (run_redirect toy_host tracee_pid (codes "tty1") machine_at_rest ≡ (
      err (message "could not interpret {:?} as a TTY identifier" (text (codes "tty1") ∷ [])),
      let_go toy_host controller
          (toy_machine tracee_pid)
          toy_calls
          toy_new
          toy_quiet
          fuelled
          8196
          vdso
          tracee_pid
          silent,
    ))
    × IsReady toy_host controller
        (toy_machine tracee_pid)
        toy_calls
        toy_new
        fuelled
        8196
        vdso
        silent
    × KeepsMapped toy_host controller
        (toy_machine tracee_pid)
        toy_calls
        toy_new
        fuelled
        8196
        vdso
        cancelled.os
        silent
run_redirect-refused_example =
    run_redirect-refused toy_host controller (toy_machine tracee_pid) toy_calls toy_new toy_quiet
      fuelled 8196 vdso tracee_pid (codes "tty1") machine_at_rest attached cancelled cancelled.os
      cancelled.os.at_regs started.0 started.1 started.2 maps_read no_terminal.0 no_terminal.1
      (refl, refl) is_ready
