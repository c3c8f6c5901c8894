-- ===== src/Daemon.antt =====
-- proctool/bin/daemon.rs: the daemon's commands. Each arm of `run_command` is a function; the server
-- around it is in Daemon/Server.antt.
pub mod Server
pub mod Loops
pub mod Paused
pub mod Rotated
pub mod Colorized
pub mod Redirected
pub mod Rewound
pub mod Detached
pub mod Setup
use process_magic.Prelude.{
  ℕ, zero, suc, ◌+◌, ◌*◌, Bool, true, false, Option, none, some, List, [], ◌∷◌, ◌++◌, Result, ok,
  err, panic, unfinished, unwrap, map_err, num, if◌then◌else◌, get_elem?,
}
use process_magic.Int.{ℤ}
use process_magic.Text.{Text, codes, show_dec, show_i32}
use process_magic.Utf8.{as_bytes}
use process_magic.Host.{Host, Registers, Sysno, close_no, openat_no, execve_no}
use process_magic.Host.Action.{Action, pure, from, fail, labelled, ignore_err, ◌>>=◌, ◌>>◌}
use process_magic.Messages.{Args, SpawnArgs, TakeoverArgs}
use process_magic.Myprocfs.Files.{get_command_line}
use process_magic.Procinfo.Listing.{get_session_id_for_terminal}
use process_magic.Terminals.{normalize_tty, clear_terminal, write_to_stdin, get_terminal}
use process_magic.Pcontroller.{
  ProcessController, Session, Method, os, new, attach, detach, get_registers, set_registers,
  step_and_wait, current_syscall, ensure_not_in_syscall, stop_at_next_syscall, continue_syscall,
  is_writing_to_stdout, is_writing_to_stderr, with_controller,
}
use process_magic.Pcontroller.Syscalls.{execute_syscall, update}
use process_magic.Pcontroller.Regions.{inject_bytes, inject_u64s, map_region}
use process_magic.Pcontroller.Colorize
use process_magic.Pcontroller.Rot13
use process_magic.Pcontroller.Takeover
use process_magic.Pcontroller.Stdin.{cancel_pending_read}

-- `libc::O_WRONLY`
abbrev pub o_wronly : ℕ
o_wronly = 1

module _ (H : Host) where
  -- `Args::Oblivion`, from the terminal number `i` on
  unfoldable pub run_oblivion : Text → ℕ → List ℤ → Action H.State (Unit {0})
  run_oblivion root i [] = pure tt
  run_oblivion root i (ttyno ∷ ttys) = do
    session_id ←
        labelled "oblivion: failed to get session id"
          (get_session_id_for_terminal H (codes "/dev/pts/" ++ show_i32 ttyno))
    labelled "oblivion: failed to write to stdin"
        (write_to_stdin H session_id (root ++ (codes "/bin/oblivion " ++ show_dec i)))
    run_oblivion root (i + 1) ttys

  -- `Args::Pause`: the controller is not to detach when it is dropped.
  unfoldable pub run_pause : ℤ → Action H.State (Unit {0})
  run_pause pid =
      with_controller H (record { pid = pid; memory_maps = none; detach_on_drop = false })
        (attach H)

  unfoldable pub run_resume : ℤ → Action H.State (Unit {0})
  run_resume pid = with_controller H (new pid) (detach H)

  -- The body of `Args::Redirect`
  unfoldable pub redirect_with : Text → Method H (Unit {0})
  redirect_with tty_arg = do
    attach H
    cancel_pending_read H
    original_registers ← get_registers H
    execute_syscall H close_no (1 ∷ [])
    execute_syscall H close_no (2 ∷ [])
    tty ← from (normalize_tty tty_arg)
    ignore_err (os H (clear_terminal H tty))
    str_addr ← inject_bytes H (as_bytes (tty ++ (0 ∷ [])))
    execute_syscall H openat_no (0 ∷ str_addr ∷ o_wronly ∷ 0 ∷ [])
    execute_syscall H openat_no (0 ∷ str_addr ∷ o_wronly ∷ 0 ∷ [])
    set_registers H original_registers
    detach H

  unfoldable pub run_redirect : ℤ → Text → Action H.State (Unit {0})
  unfolding redirect_with
  run_redirect pid tty = with_controller H (new pid) (redirect_with tty)

  unfoldable pub inject_all : List (List ℕ) → Method H (List ℕ)
  inject_all [] = pure []
  inject_all (arg ∷ command_line) = do
    addr ← inject_bytes H arg
    addrs ← inject_all command_line
    pure (addr ∷ addrs)

  -- The body of `Args::Rewind`; `addrs[0]` panics if the command line is empty.
  unfoldable pub rewind_with : ℤ → Method H (Unit {0})
  unfolding inject_all
  rewind_with pid = do
    attach H
    ensure_not_in_syscall H
    pts ← os H (get_terminal H pid)
    os H (clear_terminal H pts)
    command_line ← os H (get_command_line H pid)
    addrs ← inject_all command_line
    argv_addr ← inject_u64s H addrs
    envp_addr ← inject_bytes H (0 ∷ [])
    path_addr ← from (unwrap (get_elem? addrs 0))
    execute_syscall H execve_no (path_addr ∷ argv_addr ∷ envp_addr ∷ [])
    detach H

  unfoldable pub run_rewind : ℤ → Action H.State (Unit {0})
  unfolding rewind_with
  run_rewind pid = with_controller H (new pid) (rewind_with pid)

  unfoldable pub run_spawn : SpawnArgs → Action H.State (Unit {0})
  run_spawn args = do
    tty ← from (normalize_tty args.tty)
    session_id ← get_session_id_for_terminal H tty
    write_to_stdin H session_id args.cmd

  unfoldable pub run_takeover : Text → TakeoverArgs → Action H.State (Unit {0})
  run_takeover root args = Takeover.takeover H args.pid (path_to_program args.bin) args.pause
    where
      path_to_program : Option Text → Text
      path_to_program (some path) = path
      path_to_program none = root ++ codes "/bin/takeover"

  -- A round of `Args::ColorizeStderr` behind a stop at the entry of a system call
  unfoldable pub colorize_round : ℕ → Method H (Unit {0})
  colorize_round region_addr = do
    writing ← is_writing_to_stderr H
    elim writing [
      | none ↦ continue_syscall H
      | some (addr, count) ↦ do
        original_registers ← get_registers H
        Colorize.colorize_stderr H region_addr addr count
        continue_syscall H
        new_registers ← get_registers H
        set_registers H (record new_registers {
          regs =
              update
                (update (update new_registers.regs 0 (original_registers.regs 2)) 1
                  (original_registers.regs 1))
                2 (original_registers.regs 2);
        })
    ]

  -- A round of `Args::Rot13`
  unfoldable pub rot13_round : Method H (Unit {0})
  rot13_round = do
    writing ← is_writing_to_stdout H
    elim writing [
      | none ↦ continue_syscall H
      | some (addr, count) ↦ do
        Rot13.rot13 H addr count
        continue_syscall H
        Rot13.rot13 H addr count
    ]

  -- `loop { if controller.stop_at_next_syscall().is_err() { break; } … }`
  unfoldable pub until_stop_fails : ℕ → Method H (Unit {0}) → Method H (Unit {0})
  until_stop_fails zero round s = (unfinished, s)
  until_stop_fails (suc rounds) round s =
      let (r, t) = stop_at_next_syscall H s in
      elim r [
        | ok a ↦ (round >> until_stop_fails rounds round) t
        | err e ↦ (ok tt, t)
        | panic ↦ (panic, t)
        | unfinished ↦ (unfinished, t)
      ]

  unfoldable pub run_colorize_stderr : ℤ → Action H.State (Unit {0})
  unfolding colorize_round until_stop_fails
  run_colorize_stderr pid = with_controller H (new pid) (do
    attach H
    registers ← get_registers H
    region_addr ← map_region H (4096 * 16)
    set_registers H registers
    until_stop_fails H.fuel (colorize_round region_addr)
    ignore_err (detach H))

  unfoldable pub run_rot13 : ℤ → Action H.State (Unit {0})
  unfolding rot13_round until_stop_fails
  run_rot13 pid =
      with_controller H (new pid)
        (do attach H; until_stop_fails H.fuel rot13_round; ignore_err (detach H))

  -- The first argument is PROCTOOL_ROOT.
  unfoldable pub run_command : Text → Args → Action H.State (Unit {0})
  run_command root (Args.oblivion ttys) = run_oblivion root 0 ttys
  run_command root (Args.pause pid) = run_pause pid
  run_command root (Args.resume pid) = run_resume pid
  run_command root (Args.redirect pid tty) = run_redirect pid tty
  run_command root (Args.rewind pid) = run_rewind pid
  run_command root (Args.spawn args) = run_spawn args
  run_command root (Args.takeover args) = run_takeover root args
  run_command root (Args.write_stdin pid message) = write_to_stdin H pid message
  run_command root (Args.colorize_stderr pid) = run_colorize_stderr pid
  run_command root (Args.rot13 pid) = run_rot13 pid
  run_command root args = fail "unknown command {:?}" []
