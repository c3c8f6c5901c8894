-- ===== src/Client.antt =====
-- proctool/bin/client.rs: the command line. The encoding of messages and states by serde_json is a
-- parameter; what `println!` writes is no call; `std::process::exit(1)` is an error.
pub mod Dispatch
pub mod StateFile
use process_magic.Prelude.{
  ℕ, Bool, true, false, Option, none, some, List, [], ◌∷◌, ◌++◌, num, Result, ok, err, panic,
  unfinished, if◌then◌else◌,
}
use process_magic.Int.{ℤ}
use process_magic.Text.{Text, codes, show_dec, show_i32}
use process_magic.Utf8.{as_bytes}
use process_magic.Host
use process_magic.Host.{
  Host, ForkResult, parent, child, fork, waitpid, wstopped, ptrace_traceme, raise, sigstop,
  tcp_connect, tcp_write, wait_spawned, open_create, getpid, write_all, read_file, read_dir,
}
use process_magic.Host.Action.{Action, pure, from, fail, labelled, ◌>>=◌, ◌>>◌}
use process_magic.Messages.{Args, DaemonMessage, command, kill}
use process_magic.Terminals.{get_terminal}
use process_magic.Procinfo.Listing
use process_magic.Cryogenics
use process_magic.Cryogenics.{ProcessState}
use process_magic.Pcontroller.{Method, new, detach_and_stop, wait_pid, with_controller}
use process_magic.Pcontroller.Regions.{map_svc_region, unmap_existing_regions}
use process_magic.Pcontroller.Takeover.{takeover}
use process_magic.Daemon.Server.{port}

module _ (H : Host) where
  -- `std::process::exit(1)`
  abbrev pub exit_failure : {A : Type 0} → Action H.State A
  exit_failure = fail "exit status {}" (num 1 ∷ [])

  -- What follows a call is `exit(1)` if the call fails.
  unfoldable pub or_exit : {A : Type 0} → Action H.State A → Action H.State (Unit {0})
  or_exit m s = ended (m s)
    where
      ended : {A : Type 0} → Result A × H.State → Result (Unit {0}) × H.State
      ended (ok a, t) = (ok tt, t)
      ended (err e, t) = exit_failure t
      ended (panic, t) = (panic, t)
      ended (unfinished, t) = (unfinished, t)

  -- `Daemon::connect`
  unfoldable pub connect : Action H.State ℕ
  connect =
      labelled "could not connect to daemon"
        (H.perform (tcp_connect (codes "127.0.0.1:" ++ show_dec port)))

  unfoldable pub start_daemon : Text → Action H.State (Unit {0})
  start_daemon root = do
    H.perform (
        Host.spawn (
          codes "sudo"
          ∷ (codes "PROCTOOL_ROOT=" ++ root)
          ∷ (root ++ codes "/bin/proctool-daemon")
          ∷ []))
    H.perform wait_spawned

  unfoldable pub follow_daemon_logs : Text → Action H.State (Unit {0})
  follow_daemon_logs root = do
    H.perform (Host.spawn (codes "tail" ∷ codes "-F" ∷ (root ++ codes "/daemon.log") ∷ []))
    H.perform wait_spawned

  unfoldable pub print_daemon_status : Action H.State (Unit {0})
  print_daemon_status = or_exit connect

  unfoldable pub print_what_terminal : Action H.State (Unit {0})
  print_what_terminal = do pid ← H.perform getpid; get_terminal H pid; pure tt

  -- The body of `Args::UnmapChild` in the parent
  unfoldable pub unmap_child_with : Method H (Unit {0})
  unmap_child_with = do
    svc_region_addr ← labelled "failed to map svc region" (map_svc_region H)
    unmap_existing_regions H svc_region_addr
    detach_and_stop H
    wait_pid H

  unfoldable pub unmap_child : Action H.State (Unit {0})
  unmap_child = do
    forked ← H.perform fork
    elim forked [
      | parent child_pid ↦ do
        labelled "failed to waitpid" (H.perform (waitpid child_pid (some wstopped)))
        with_controller H (new child_pid) unmap_child_with
      | child ↦ H.perform ptrace_traceme >> H.perform (raise sigstop)
    ]

  module _ (message_text : DaemonMessage → Result Text) (state_bytes : ProcessState → List ℕ)
      (read_state : List ℕ → Result ProcessState) where
    -- `Daemon::send_message`
    unfoldable pub send_message : ℕ → DaemonMessage → Action H.State (Unit {0})
    send_message stream msg = do
      line ← from (message_text msg)
      H.perform (tcp_write stream (as_bytes line))

    unfoldable pub kill_daemon : Action H.State (Unit {0})
    kill_daemon = do stream ← connect; or_exit (send_message stream kill)

    unfoldable pub dispatch_to_daemon : Args → Action H.State (Unit {0})
    dispatch_to_daemon args = do stream ← connect; or_exit (send_message stream (command args))

    -- `serde_json::to_writer` hands its text to `write_all` in pieces, which are one call here.
    unfoldable pub run_freeze : Text → ℤ → Action H.State (Unit {0})
    run_freeze root pid = do
      state ← Cryogenics.freeze H pid
      f ← H.perform (open_create (show_i32 pid ++ codes ".state"))
      H.perform (write_all f (state_bytes state))
      takeover H pid (root ++ codes "/bin/risen") false

    unfoldable pub run_thaw : Text → Action H.State (Unit {0})
    run_thaw path = do
      bytes ← H.perform (read_file path)
      state ← from (read_state bytes)
      Cryogenics.thaw H state

    -- `main`, behind the reading of the arguments and of PROCTOOL_ROOT.
    unfoldable pub run : Text → Args → Action H.State (Unit {0})
    run root Args.daemon_kill = kill_daemon
    run root Args.daemon_logs = follow_daemon_logs root
    run root Args.daemon_restart = kill_daemon >> start_daemon root
    run root Args.daemon_start = start_daemon root
    run root Args.daemon_status = print_daemon_status
    run root Args.groups = Listing.print_process_groups H >> pure tt
    run root (Args.processes (some pid)) = Listing.print_process_tree H pid >> pure tt
    run root (Args.processes none) = Listing.list_processes H >> pure tt
    run root Args.sessions = Listing.print_sessions H >> pure tt
    run root Args.terminals = Listing.list_terminals H >> pure tt
    run root Args.which = print_what_terminal
    run root (Args.freeze pid) = run_freeze root pid
    run root (Args.thaw path) = run_thaw path
    run root Args.unmap_child = unmap_child
    run root (Args.oblivion ttys) = do
      dispatch_to_daemon (Args.oblivion ttys)
      H.perform (Host.spawn ((root ++ codes "/bin/oblivion") ∷ codes "3" ∷ []))
    run root args = dispatch_to_daemon args
