-- ===== src/Tests/Redirecting.antt =====
-- A redirect of the process of the small machine.
use process_magic.Prelude.{ℕ, ◌<◌, ◌≡◌, refl, arith, true, List, [], ◌∷◌, ok, length, All}
use process_magic.Text.{Text, codes, starts_with}
use process_magic.Utf8.{as_bytes, encode_char}
use process_magic.Utf8.Encoded.{IsScalar}
use process_magic.Words.{add_u64}
use process_magic.Words.Bytes.{from_le}
use process_magic.Host.{Registers, Call, open_fd, write, write_only}
use process_magic.Host.Mapping.{behind}
use process_magic.Host.Mapping.New.{QuietCalls}
use process_magic.Terminals.{normalize_tty}
use process_magic.Pcontroller.{Session, attach, get_registers, detach, current_syscall}
use process_magic.Pcontroller.Stdin.{cancel_pending_read}
use process_magic.Pcontroller.Syscalls.{
  get_memory_maps, initialize_memory_maps, search_buffer, find_svc, starts_with_svc,
}
use process_magic.Pcontroller.Regions.Injecting.{IsReady}
use process_magic.Pcontroller.Takeover.Prepared.{path_bytes}
use process_magic.Daemon.{redirect_with}
use process_magic.Daemon.Rewound.Arguments.{HoldsAt, KeepsMapped}
use process_magic.Daemon.Redirected.Reopened.{
  LeavesTracee, name, named, reopened_at, redirect_with-reopened,
}
use process_magic.Tests.Machine.{Toy, toy_host, toy_machine, tracee_pid}
use process_magic.Tests.Serving.{vdso_session, vdso_map}
use process_magic.Tests.Mapping.{toy-RanOn, toy-IsReady, toy_calls, controller, fuelled}
use process_magic.Tests.Taking.{toy_new, vdso}

pub toy_kept :
    (s : Toy) (r : Registers) (b : ℕ)
    → b < s.mapped_end
    → b < (behind toy_host tracee_pid (toy_machine tracee_pid) s r).mapped_end
toy_kept s r b m = ground (arith, m)

abbrev pub toy_quiet : QuietCalls toy_host tracee_pid (toy_machine tracee_pid) toy_calls toy_new
toy_quiet = record {
  quiet = λ n s r q h i number.
      ((toy-RanOn s r 0 0 i).0, toy-IsReady s r i, λ b m. (toy_kept s r b m, refl));
}

abbrev attached : Session Toy
attached = (attach toy_host vdso_session).1

abbrev cancelled : Session Toy
cancelled = (cancel_pending_read toy_host attached).1

started :
    (attach toy_host vdso_session ≡ (ok tt, attached))
    × (cancel_pending_read toy_host attached ≡ (ok tt, cancelled))
    × (get_registers toy_host cancelled ≡ (ok cancelled.os.at_regs, cancelled))
    × (get_memory_maps toy_host cancelled
        ≡ (ok (vdso_map ∷ []), record { controller = controller; os = cancelled.os }))
unfolding attach cancel_pending_read current_syscall from_le get_registers get_memory_maps
    initialize_memory_maps
started = (refl, refl, refl, refl)

is_ready :
    IsReady toy_host controller
      (toy_machine tracee_pid)
      toy_calls
      toy_new
      fuelled
      8196
      vdso
      cancelled.os
unfolding attach cancel_pending_read current_syscall from_le get_registers search_buffer find_svc
    starts_with_svc add_u64
is_ready = record {
  stopped = refl;
  has_svc = refl;
  mapped = λ b lo hi. omega (arith, hi);
  finds = refl;
}

abbrev terminal : Text
terminal = codes "/dev/pts/3"

accepted : normalize_tty (codes "pts/3") ≡ ok terminal
unfolding normalize_tty starts_with
accepted = refl

name_room : 0 < length (path_bytes terminal)
unfolding as_bytes encode_char
name_room = omega arith

scalars : All IsScalar terminal
scalars = ground arith

abbrev LeavesToy : Call → Type 0
LeavesToy =
    LeavesTracee toy_host controller (toy_machine tracee_pid) toy_calls toy_new toy_quiet fuelled
      8196 vdso

opens : (path : Text) → LeavesToy (open_fd path write_only)
opens path s r = (tt, r, λ b m. (m, refl))

writes : (fd : ℕ) (bytes : List ℕ) → LeavesToy (write fd bytes)
writes fd bytes s r = (tt, r, λ b m. (m, refl))

-- the address of the name, the state behind its injection, and the last one
abbrev named_at : ℕ
named_at =
    name toy_host controller (toy_machine tracee_pid) toy_calls toy_new toy_quiet fuelled 8196 vdso
      terminal scalars name_room opens writes cancelled.os

abbrev with_name : Toy
with_name =
    named toy_host controller (toy_machine tracee_pid) toy_calls toy_new toy_quiet fuelled 8196 vdso
      terminal scalars name_room opens writes cancelled.os

abbrev last : Toy
last =
    reopened_at toy_host controller (toy_machine tracee_pid) toy_calls toy_new toy_quiet fuelled
      8196 vdso named_at cancelled.os.at_regs with_name

redirect_with-reopened_example :
    (redirect_with toy_host (codes "pts/3") vdso_session
      ≡ detach toy_host (record { controller = controller; os = last }))
    × HoldsAt toy_host controller
        (toy_machine tracee_pid)
        toy_calls
        toy_new
        fuelled
        8196
        vdso
        with_name
        (path_bytes terminal)
        named_at
    × (last.stopped ≡ true)
    × (last.at_regs ≡ cancelled.os.at_regs)
    × KeepsMapped toy_host controller
        (toy_machine tracee_pid)
        toy_calls
        toy_new
        fuelled
        8196
        vdso
        cancelled.os
        last
redirect_with-reopened_example =
    redirect_with-reopened toy_host controller (toy_machine tracee_pid) toy_calls toy_new toy_quiet
      fuelled 8196 vdso terminal scalars name_room opens writes (codes "pts/3") vdso_session
      attached cancelled cancelled.os cancelled.os.at_regs started.0 started.1 started.2 started.3
      accepted is_ready
