-- ===== src/Client/Dispatch.antt =====
-- proctool/bin/client.rs and proctool/bin/daemon.rs: the command that neither of them runs.
use process_magic.Prelude.{
  ℕ, zero, suc, ◌≡◌, refl, ap, sym, ◌↔◌, true, List, [], Result, ok, err, panic, errno, message,
  arith, ltb, ltb→lt, ◌⊎◌, inl, inr, none, some, Bool-cases,
}
use mathlib.Core.Path.{subst}
use process_magic.Text.{Text, codes, starts_with}
use process_magic.Words.{debug}
use process_magic.Host
use process_magic.Host.{Host, Call, Reply}
use process_magic.Host.Action.{fail}
use process_magic.Cryogenics.{ProcessState}
use process_magic.Messages.{Args, SpawnArgs, DaemonMessage, command, kill}
use process_magic.Daemon.{
  run_command, run_pause, run_resume, run_redirect, run_rewind, run_rot13, run_colorize_stderr,
  run_takeover, run_spawn, redirect_with, rewind_with,
}
use process_magic.Client.{
  run, dispatch_to_daemon, connect, or_exit, send_message, kill_daemon, follow_daemon_logs,
  start_daemon, print_daemon_status, print_what_terminal, unmap_child, run_freeze, run_thaw,
}
use process_magic.Cryogenics.{freeze}
use process_magic.Pcontroller.{with_controller, drop_controller, attach, detach}
use process_magic.Pcontroller.Takeover.{takeover, takeover_with}
use process_magic.Procinfo.Listing.{
  print_process_groups, get_all_groups, get_all_process_info, print_process_tree, ancestors,
  list_processes, print_sessions, list_terminals, get_session_id_for_terminal,
}
use process_magic.Terminals.{get_terminal, write_to_stdin, normalize_tty}

-- The client does nothing but send the command to the daemon, on any machine.
abbrev pub IsSent : Args → Type 1
IsSent args =
    (H : Host) (message_text : DaemonMessage → Result Text) (state_bytes : ProcessState → List ℕ)
    (read_state : List ℕ → Result ProcessState) (root : Text) (s : H.State)
    → run H message_text state_bytes read_state root args s
      ≡ dispatch_to_daemon H message_text state_bytes read_state args s

-- The daemon refuses the command and makes no call, on any machine.
abbrev pub IsRefused : Args → Type 1
IsRefused args =
    (H : Host) (root : Text) (s : H.State)
    → run_command H root args s ≡ fail "unknown command {:?}" [] s

-- a machine on which nothing but the connection to the daemon works, and which counts the calls
abbrev count : (c : Call) → ℕ → Result (Reply c) × ℕ
count (Host.tcp_connect addr) n = (ok 3, suc n)
count (Host.tcp_write stream bytes) n = (ok tt, suc n)
count c n = (err (errno 1), suc n)

abbrev counting : Host
counting = record { State = ℕ; perform = count; sysno = λ n. 0; profile = debug; fuel = 0 }

-- a notation that has no kill
abbrev no_kill : DaemonMessage → Result Text
no_kill kill = panic
no_kill (command args) = ok []

-- the number of calls that have sent a command: a connection and a write
abbrev sent : Result (Unit {0}) × ℕ → ℕ
sent (ok a, n) = n
sent _ = 0

abbrev refused : Result (Unit {0}) × ℕ → ℕ
refused (err (message text []), zero) = 1
refused _ = 0

client : Args → Result (Unit {0}) × ℕ
client args = run counting no_kill (λ state. []) (λ bytes. err (errno 1)) [] args 0

daemon : Args → Result (Unit {0}) × ℕ
daemon args = run_command counting [] args 0

not_sent : (args : Args) → ltb (sent (client args)) 2 ≡ true → IsSent args → ⊥
unfolding client dispatch_to_daemon connect or_exit send_message
not_sent args few h =
    let two : sent (client args) ≡ 2 =
      ap sent (h counting no_kill (λ state. []) (λ bytes. err (errno 1)) [] 0) in
    omega (arith, two, ltb→lt (sent (client args)) 2 few)

not_refused : (args : Args) → refused (daemon args) ≡ 0 → IsRefused args → ⊥
unfolding daemon
not_refused args other h =
    let one : refused (daemon args) ≡ 1 = ap refused (h counting [] 0) in omega (arith, other, one)

-- a terminal whose name is refused is not an unknown command
spawn_known : (args : SpawnArgs) → refused (daemon (Args.spawn args)) ≡ 0
unfolding daemon run_command run_spawn normalize_tty get_session_id_for_terminal
    get_all_process_info
spawn_known args = elim (Bool-cases (starts_with args.tty (codes "/dev/pts/"))) [
  | inl whole ↦ rw whole refl
  | inr other ↦ elim (Bool-cases (starts_with args.tty (codes "pts/"))) [
    | inl short ↦ rw (other, short) refl
    | inr neither ↦ rw (other, neither) refl
  ]
]

-- Every command but one makes either the client or the daemon do something else.
someone_acts :
    (args : Args)
    → (args ≡ Args.terminal_sizes)
      ⊎ ((ltb (sent (client args)) 2 ≡ true) ⊎ (refused (daemon args) ≡ 0))
unfolding client daemon run run_command kill_daemon connect or_exit send_message follow_daemon_logs
    start_daemon print_daemon_status print_what_terminal unmap_child run_freeze run_thaw
    dispatch_to_daemon freeze with_controller drop_controller attach print_process_groups
    get_all_groups get_all_process_info print_process_tree ancestors list_processes print_sessions
    list_terminals get_terminal write_to_stdin run_pause run_resume run_redirect run_rewind
    run_rot13 run_colorize_stderr run_takeover redirect_with rewind_with takeover_with takeover
    detach
someone_acts Args.daemon_kill = inr (inl refl)
someone_acts Args.daemon_logs = inr (inl refl)
someone_acts Args.daemon_restart = inr (inl refl)
someone_acts Args.daemon_start = inr (inl refl)
someone_acts Args.daemon_status = inr (inl refl)
someone_acts (Args.freeze pid) = inr (inl refl)
someone_acts Args.groups = inr (inl refl)
someone_acts (Args.oblivion ttys) = inr (inl refl)
someone_acts (Args.pause pid) = inr (inr refl)
someone_acts (Args.processes none) = inr (inl refl)
someone_acts (Args.processes (some pid)) = inr (inl refl)
someone_acts (Args.redirect pid tty) = inr (inr refl)
someone_acts (Args.resume pid) = inr (inr refl)
someone_acts (Args.rewind pid) = inr (inr refl)
someone_acts (Args.rot13 pid) = inr (inr refl)
someone_acts (Args.colorize_stderr pid) = inr (inr refl)
someone_acts Args.sessions = inr (inl refl)
someone_acts (Args.spawn args) = inr (inr (spawn_known args))
someone_acts (Args.takeover args) = inr (inr refl)
someone_acts Args.terminals = inr (inl refl)
someone_acts Args.terminal_sizes = inl refl
someone_acts (Args.thaw path) = inr (inl refl)
someone_acts Args.unmap_child = inr (inl refl)
someone_acts Args.which = inr (inl refl)
someone_acts (Args.write_stdin pid line) = inr (inr refl)

-- A command is one that the client, on every machine, only sends to the daemon, and that the
-- daemon, on every machine, refuses without a call, exactly when it is TerminalSizes.
pub terminal_sizes-unserved :
    (args : Args) → (IsSent args × IsRefused args) ↔ (args ≡ Args.terminal_sizes)
unfolding run run_command
terminal_sizes-unserved args = (
  λ (passed, refused_by). elim (someone_acts args) [
    | inl e ↦ e
    | inr (inl few) ↦ absurd (not_sent args few passed)
    | inr (inr other) ↦ absurd (not_refused args other refused_by)
  ],
  λ e.
      subst (λ a. IsSent a × IsRefused a) (sym e)
        (λ H message_text state_bytes read_state root s. refl, λ H root s. refl),
)
