-- ===== src/Daemon/Server/Scripts.antt =====
-- proctool/bin/daemon.rs: the commands that a server is to run, in their order, and how it ends.
use process_magic.Prelude.{
  Bool, true, false, ◌≡◌, refl, ap, sym, fun_ext, ◌∙◌, List, [], ◌∷◌, ◌++◌, Result, ok, err, panic,
  unfinished, ◌>>=◌,
}
use process_magic.Text.{Text}
use process_magic.Host.{Host}
use process_magic.Host.Action
use process_magic.Host.Action.{from, ignore_err, ◌>>◌}
use process_magic.Messages.{Args, DaemonMessage, command, kill}
use process_magic.Daemon.{run_command}
use process_magic.Daemon.Server.{Stream}

-- What is to run, and how it ends.
abbrev pub Script : Type 0 → Type 0
Script A = List Args × Result A

abbrev pub before_it : {A : Type 0} → Args → Script A → Script A
before_it args script = (args ∷ script.0, script.1)

abbrev pub after : {A : Type 0} → List Args → Script A → Script A
after commands script = (commands ++ script.0, script.1)

abbrev pub after_session : Script Bool → Script (Unit {0}) → Script (Unit {0})
after_session (commands, ok true) rest = (commands, ok tt)
after_session (commands, ok false) rest = after commands rest
after_session (commands, err e) rest = after commands rest
after_session (commands, panic) rest = (commands, panic)
after_session (commands, unfinished) rest = (commands, unfinished)

abbrev pub line_script : Result DaemonMessage → Script Bool → Script Bool
line_script (ok (command args)) rest = before_it args rest
line_script (ok kill) rest = ([], ok true)
line_script (err e) rest = ([], err e)
line_script panic rest = ([], panic)
line_script unfinished rest = ([], unfinished)

-- A connection: its commands up to the first line that is not one. A kill ends it with true, the end
-- of the stream, or an empty line, with false, and a line that cannot be read or parsed with that error.
module _ (from_str : Text → Result DaemonMessage) where
  abbrev pub session_script : Stream → Script Bool
  session_script [] = ([], ok false)
  session_script (ok [] ∷ stream) = ([], ok false)
  session_script (read_line ∷ stream) = line_script (read_line >>= from_str) (session_script stream)

  -- The server: a session's commands, then those of the next, until one ends with true. A connection
  -- that cannot be accepted ends it with that error, and a session's error does not.
  abbrev pub server_script : List (Result Stream) → Script (Unit {0})
  server_script [] = ([], unfinished)
  server_script (stream_result ∷ incoming) = elim stream_result [
    | ok stream ↦ after_session (session_script stream) (server_script incoming)
    | err e ↦ ([], err e)
    | panic ↦ ([], panic)
    | unfinished ↦ ([], unfinished)
  ]

module _ (H : Host) (root : Text) where
  -- The commands one after the other, whether or not one fails.
  unfoldable pub run_all : List Args → Action.Action H.State (Unit {0})
  run_all [] = Action.pure tt
  run_all (args ∷ commands) = Action.◌>>◌ (ignore_err (run_command H root args)) (run_all commands)

  abbrev pub follow : {A : Type 0} → Script A → Action.Action H.State A
  follow script = Action.◌>>◌ (run_all script.0) (from script.1)

  pub follow-before :
      {A : Type 0} (args : Args) (script : Script A) (s : H.State)
      → Action.◌>>◌ (ignore_err (run_command H root args)) (follow script) s
        ≡ follow (before_it args script) s
  unfolding run_all
  follow-before args script s =
      sym (
        Action.>>-assoc (ignore_err (run_command H root args)) (run_all script.0) (from script.1) s)

  pub run_all-append :
      (xs ys : List Args) (s : H.State)
      → run_all (xs ++ ys) s ≡ Action.◌>>◌ (run_all xs) (run_all ys) s
  unfolding run_all
  run_all-append [] ys s = refl
  run_all-append (args ∷ xs) ys s =
      ap (λ k. Action.◌>>◌ (ignore_err (run_command H root args)) k s)
        (fun_ext (run_all-append xs ys))
      ∙ sym (Action.>>-assoc (ignore_err (run_command H root args)) (run_all xs) (run_all ys) s)

  pub follow-after :
      {A : Type 0} (commands : List Args) (script : Script A) (s : H.State)
      → follow (after commands script) s ≡ Action.◌>>◌ (run_all commands) (follow script) s
  follow-after commands script s =
      ap (λ k. Action.◌>>◌ k (from script.1) s) (fun_ext (run_all-append commands script.0))
      ∙ Action.>>-assoc (run_all commands) (run_all script.0) (from script.1) s
