-- ===== src/Pcontroller/Stdin.antt =====
-- proctool/pcontroller.rs: `cancel_pending_read`.
use process_magic.Prelude.{◌&&◌, none, some, [], ◌==◌, if◌then◌else◌}
use process_magic.Host.{Host, read_no}
use process_magic.Host.Action.{pure, ◌>>=◌, ◌>>◌}
use process_magic.Terminals.{write_to_stdin}
use process_magic.Pcontroller.{Method, os, self_pid, current_syscall, step_and_wait}

module _ (H : Host) where
  -- stdin is represented by 0
  unfoldable pub cancel_pending_read : Method H (Unit {0})
  cancel_pending_read = do
    call ← current_syscall H
    elim call [
      | none ↦ pure tt
      | some (sysno, arg) ↦
          if (sysno == H.sysno read_no) && (arg == 0)
          then (do pid ← self_pid H; os H (write_to_stdin H pid []); step_and_wait H)
          else pure tt
    ]
