-- ===== src/Pcontroller/Takeover.antt =====
-- proctool/pcontroller.rs: `takeover`, which makes a process execute another program.
pub mod Prepared
use process_magic.Prelude.{Bool, not, [], ◌∷◌, ◌++◌, if◌then◌else◌}
use process_magic.Int.{ℤ}
use process_magic.Text.{Text}
use process_magic.Utf8.{as_bytes}
use process_magic.Host.{Host, execve_no}
use process_magic.Host.Action.{Action, ◌>>=◌, ◌>>◌}
use process_magic.Pcontroller.{
  Method, new, attach, ensure_not_in_syscall, detach, detach_and_stop, with_controller,
}
use process_magic.Pcontroller.Syscalls.{prepare_syscall}
use process_magic.Pcontroller.Regions.{inject_bytes}

module _ (H : Host) where
  -- The body, in which the controller lives.
  unfoldable pub takeover_with : Text → Bool → Method H (Unit {0})
  takeover_with path_to_program pause = do
    attach H
    ensure_not_in_syscall H
    str_addr ← inject_bytes H (as_bytes (path_to_program ++ (0 ∷ [])))
    empty_addr ← inject_bytes H (0 ∷ [])
    prepare_syscall H execve_no (str_addr ∷ empty_addr ∷ empty_addr ∷ [])
    if not pause then ensure_not_in_syscall H >> detach H else detach_and_stop H

  unfoldable pub takeover : ℤ → Text → Bool → Action H.State (Unit {0})
  unfolding takeover_with
  takeover pid path_to_program pause =
      with_controller H (new pid) (takeover_with path_to_program pause)
