-- ===== src/Terminals/Spawned.antt =====
-- proctool/terminals.rs: `spawn_on_terminal`, which turns the calling process into another program on
-- a terminal.
pub mod User
use process_magic.Prelude.{
  ℕ, Option, none, some, List, [], ◌∷◌, Result, ok, err, panic, unfinished, if◌then◌else◌,
}
use process_magic.Int.{ℤ, pos}
use process_magic.Text.{Text}
use process_magic.Host.{
  Host, fork, parent, child, waitpid, wstopped, getpgid, setpgid, setsid, kill, sigcont, sigstop,
  raise, open_fd, read_write, tiocsctty, setuid, dup2, close, execv,
}
use process_magic.Host.Action.{Action, pure, from, fail, labelled, ignore_err, ◌>>=◌, ◌>>◌}
use process_magic.Terminals.{normalize_tty, c_string, has_nul, clear_terminal}

-- `args.iter().map(|a| CString::new(a.clone()).unwrap())`
unfoldable pub c_strings : List Text → Result (List Text)
unfolding has_nul
c_strings [] = ok []
c_strings (a ∷ args) = if has_nul a then panic else elim (c_strings args) [
  | ok args_c ↦ ok (a ∷ args_c)
  | err e ↦ err e
  | panic ↦ panic
  | unfinished ↦ unfinished
]

module _ (H : Host) where
  -- `if r == -1 { return Err(…) }`
  unfoldable pub take_terminal : ℕ → Action H.State (Unit {0})
  take_terminal fd s =
      let (r, t) = H.perform (tiocsctty fd) s in
      elim r [
        | ok a ↦ (ok tt, t)
        | err e ↦ fail "ioctl(TIOCSCTTY) failed" [] t
        | panic ↦ (panic, t)
        | unfinished ↦ (unfinished, t)
      ]

  -- `if let Some(uid) = uid_opt`
  unfoldable pub drop_to : Option ℕ → Action H.State (Unit {0})
  drop_to none = pure tt
  drop_to (some uid) = labelled "setuid() failed" (H.perform (setuid uid))

  -- The parent from the change of the user on
  unfoldable pub become : Text → List Text → Text → ℕ → Action H.State (Unit {0})
  become path args_c tty fd = do
    H.perform (dup2 fd 0)
    H.perform (dup2 fd 1)
    H.perform (dup2 fd 2)
    H.perform (close fd)
    ignore_err (clear_terminal H tty)
    ignore_err (H.perform (execv path args_c))

  -- The parent's branch, which leaves its process group for a session of its own.
  unfoldable pub lead_terminal : Text → List Text → Text → Option ℕ → ℤ → Action H.State (Unit {0})
  unfolding take_terminal
  lead_terminal path args_c tty uid_opt child_pid = do
    H.perform (waitpid child_pid (some wstopped))
    child_pgid ← H.perform (getpgid child_pid)
    labelled "setpgid failed" (H.perform (setpgid (pos 0) child_pgid))
    labelled "setsid failed" (H.perform setsid)
    labelled "kill (SIGCONT) failed" (H.perform (kill child_pid sigcont))
    labelled "waitpid() failed" (H.perform (waitpid child_pid none))
    fd ← H.perform (open_fd tty read_write)
    take_terminal fd
    drop_to uid_opt
    become path args_c tty fd

  unfoldable pub spawn_on_terminal : Text → List Text → Text → Option ℕ → Action H.State (Unit {0})
  unfolding c_strings lead_terminal
  spawn_on_terminal path args tty_arg uid_opt = do
    tty ← from (normalize_tty tty_arg)
    path_c ← from (c_string path)
    tty_c ← from (c_string tty)
    args_c ← from (c_strings args)
    forked ← H.perform fork
    elim forked [
      | parent child_pid ↦ lead_terminal path_c args_c tty_c uid_opt child_pid
      | child ↦ do
        ignore_err (H.perform (setpgid (pos 0) (pos 0)))
        ignore_err (H.perform (raise sigstop))
    ]
