-- ===== src/Daemon/Server.antt =====
-- proctool/bin/daemon.rs: the server. A connection is what `read_line` returns in turn, an empty line
-- or nothing more when the client has closed it; `incoming` is the connections so far. `serde_json::from_str` is
-- a parameter.
pub mod Scripts
pub mod Sessions
use process_magic.Prelude.{
  ℕ, Bool, true, false, List, [], ◌∷◌, ◌++◌, Result, ok, err, panic, unfinished, if◌then◌else◌,
}
use process_magic.Text.{Text, codes, show_dec}
use process_magic.Host.{Host, tcp_bind}
use process_magic.Host.Action.{Action, pure, from, ignore_err, ◌>>=◌, ◌>>◌}
use process_magic.Messages.{Args, DaemonMessage, command, kill}
use process_magic.Daemon.{run_command}

abbrev pub port : ℕ
port = 6666

abbrev pub Stream : Type 0
Stream = List (Result Text)

module _ (H : Host) (from_str : Text → Result DaemonMessage) where
  -- Returns true if the server is to shut down. A command that fails is logged.
  unfoldable pub handle_client : Text → Stream → Action H.State Bool
  handle_client root [] = pure false
  handle_client root (ok [] ∷ stream) = pure false
  handle_client root (read_line ∷ stream) = do
    line ← from read_line
    message ← from (from_str line)
    elim message [
      | command args ↦ ignore_err (run_command H root args) >> handle_client root stream
      | kill ↦ pure true
    ]

  -- The loop over `listener.incoming()`. Behind the connections so far the daemon waits.
  unfoldable pub serve : Text → List (Result Stream) → Action H.State (Unit {0})
  serve root [] s = (unfinished, s)
  serve root (stream_result ∷ incoming) s = elim stream_result [
    | ok stream ↦
        let (r, t) = handle_client root stream s in
        elim r [
          | ok should_shutdown ↦ elim should_shutdown [
            | true ↦ (ok tt, t)
            | false ↦ serve root incoming t
          ]
          | err e ↦ serve root incoming t
          | panic ↦ (panic, t)
          | unfinished ↦ (unfinished, t)
        ]
    | err e ↦ (err e, s)
    | panic ↦ (panic, s)
    | unfinished ↦ (unfinished, s)
  ]

  unfoldable pub listen_forever : Text → List (Result Stream) → Action H.State (Unit {0})
  unfolding serve
  listen_forever root incoming = do
    H.perform (tcp_bind (codes "127.0.0.1:" ++ show_dec port))
    serve root incoming
