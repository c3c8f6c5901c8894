-- ===== src/Daemon/Setup.antt =====
-- proctool/bin/daemon.rs: the daemon's own start. `std::process::exit` is an error, behind which
-- nothing more is done; the set-up of log4rs is one call.
use process_magic.Prelude.{
  ℕ, zero, suc, ◌+◌, Option, none, some, List, [], ◌∷◌, ◌++◌, num, message, Result, ok, err, panic,
  unfinished,
}
use process_magic.Text.{Text, codes}
use process_magic.Host.{
  Host, ForkResult, fork, parent, child, setsid, chdir, umask_empty, getrlimit_nofile, close,
  open_fd, read_only_noctty, init_logging,
}
use process_magic.Host.Action.{Action, pure, from, fail, ignore_err, ◌>>=◌, ◌>>◌}
use process_magic.Messages.{DaemonMessage}
use process_magic.Daemon.Server.{Stream, listen_forever}

module _ (H : Host) where
  unfoldable pub open_devnull : Action H.State (Unit {0})
  open_devnull = do H.perform (open_fd (codes "/dev/null") read_only_noctty); pure tt

  -- `for fd in 0..max_open_files { let _ = close(fd); }`, from the descriptor `fd` on
  unfoldable pub close_from : ℕ → ℕ → Action H.State (Unit {0})
  close_from fd zero = pure tt
  close_from fd (suc rounds) = do ignore_err (H.perform (close fd)); close_from (fd + 1) rounds

  -- The parent of the fork is over, with the status 0.
  unfoldable pub only_child : ForkResult → Action H.State (Unit {0})
  only_child (parent child_pid) = fail "exit status {}" (num 0 ∷ [])
  only_child child = pure tt

  unfoldable pub self_daemonize : Text → Action H.State (Unit {0})
  unfolding open_devnull close_from only_child
  self_daemonize root = do
    ignore_err (H.perform umask_empty)
    forked ← H.perform fork
    only_child forked
    H.perform setsid
    H.perform (chdir root)
    limits ← H.perform getrlimit_nofile
    close_from 0 limits.1
    open_devnull
    open_devnull
    open_devnull
    pure tt

  unfoldable pub configure_logging : Text → Action H.State (Unit {0})
  configure_logging root = H.perform (init_logging (root ++ codes "/daemon.log"))

  -- `std::env::var("PROCTOOL_ROOT").or(Err(…))?`
  unfoldable pub required_root : Option Text → Result Text
  required_root none = err (message "PROCTOOL_ROOT must be set (daemon)" [])
  required_root (some root) = ok root

  module _ (from_str : Text → Result DaemonMessage) where
    -- `main`, with the variable PROCTOOL_ROOT and the connections that come.
    unfoldable pub daemon_main : Option Text → List (Result Stream) → Action H.State (Unit {0})
    unfolding self_daemonize configure_logging required_root
    daemon_main env incoming = do
      root ← from (required_root env)
      self_daemonize root
      configure_logging root
      λ s. ended (listen_forever H from_str root incoming s)
      where
        ended : Result (Unit {0}) × H.State → Result (Unit {0}) × H.State
        ended (ok a, t) = (ok tt, t)
        ended (err e, t) = fail "exit status {}" (num 1 ∷ []) t
        ended (panic, t) = (panic, t)
        ended (unfinished, t) = (unfinished, t)
