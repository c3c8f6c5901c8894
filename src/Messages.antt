-- ===== src/Messages.antt =====
-- proctool/mod.rs: the commands, and the messages from the client to the daemon.
use process_magic.Prelude.{ℕ, Bool, List, Option}
use process_magic.Int.{ℤ}
use process_magic.Text.{Text}

pub record SpawnArgs : Type 0 where
  pub tty : Text
  pub cmd : Text
  pub uid : Option ℕ

pub record TakeoverArgs : Type 0 where
  pub pid : ℤ
  pub pause : Bool
  pub bin : Option Text

-- `enum Args`; a variant with one or two fields carries them in place of its record.
pub data Args : Type 0 where
  daemon_kill daemon_logs daemon_restart daemon_start daemon_status : Args
  freeze : (pid : ℤ) → Args
  groups : Args
  oblivion : (ttys : List ℤ) → Args
  pause : (pid : ℤ) → Args
  processes : (pid : Option ℤ) → Args
  redirect : (pid : ℤ) (tty : Text) → Args
  resume : (pid : ℤ) → Args
  rewind : (pid : ℤ) → Args
  rot13 : (pid : ℤ) → Args
  colorize_stderr : (pid : ℤ) → Args
  sessions : Args
  spawn : SpawnArgs → Args
  takeover : TakeoverArgs → Args
  terminals terminal_sizes : Args
  thaw : (path : Text) → Args
  unmap_child which : Args
  write_stdin : (pid : ℤ) (message : Text) → Args

pub data DaemonMessage : Type 0 where
  command : Args → DaemonMessage
  kill : DaemonMessage
