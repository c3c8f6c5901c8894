-- ===== src/Daemon/Server/Sessions.antt =====
-- proctool/bin/daemon.rs: the server as the commands that it runs, in their order, and the way it ends.
use process_magic.Prelude.{
  Bool, true, false, ◌≡◌, refl, ap, sym, fun_ext, ◌∙◌, List, [], ◌∷◌, Result, ok, err, panic,
  unfinished,
}
use process_magic.Text.{Text}
use process_magic.Host.{Host}
use process_magic.Host.Action
use process_magic.Host.Action.{from, ignore_err, ◌>>◌}
use process_magic.Messages.{Args, DaemonMessage, command, kill}
use process_magic.Daemon.{run_command}
use process_magic.Daemon.Server.{Stream, handle_client, serve}
use process_magic.Daemon.Server.Scripts.{
  Script, after_session, line_script, session_script, server_script, run_all, follow, follow-before,
  follow-after,
}

module _ (H : Host) (root : Text) where
  -- One line of a connection, before the rest of it
  on_message : Result DaemonMessage → Action.Action H.State Bool → Action.Action H.State Bool
  on_message message rest = Action.◌>>=◌ (from message) (λ m. elim m [
    | command args ↦ Action.◌>>◌ (ignore_err (run_command H root args)) rest
    | kill ↦ Action.pure true
  ])

  on_message_lem :
      (message : Result DaemonMessage) (rest : Script Bool) (s : H.State)
      → on_message message (follow H root rest) s ≡ follow H root (line_script message rest) s
  unfolding on_message
  on_message_lem (ok (command args)) rest s = follow-before H root args rest s
  on_message_lem (ok kill) rest s = unfold run_all in refl
  on_message_lem (err e) rest s = unfold run_all in refl
  on_message_lem panic rest s = unfold run_all in refl
  on_message_lem unfinished rest s = unfold run_all in refl

  -- What a session's outcome is to the loop over the connections
  on_session :
      Result Bool → H.State → Action.Action H.State (Unit {0}) → Result (Unit {0}) × H.State
  on_session r t rest = elim r [
    | ok should_shutdown ↦ elim should_shutdown [ true ↦ (ok tt, t) | false ↦ rest t ]
    | err e ↦ rest t
    | panic ↦ (panic, t)
    | unfinished ↦ (unfinished, t)
  ]

  IsNoError : Result (Unit {0}) → Type 0
  IsNoError (err e) = ⊥
  IsNoError _ = Unit

  run_all-IsNoError : (commands : List Args) (s : H.State) → IsNoError (run_all H root commands s).0
  unfolding run_all IsNoError
  run_all-IsNoError [] s = tt
  run_all-IsNoError (args ∷ commands) s =
      ends (run_command H root args s).0 (run_command H root args s).1 (run_all-IsNoError commands)
    where
      ends :
          (r : Result (Unit {0})) (t : H.State)
          → ((u : H.State) → IsNoError (run_all H root commands u).0)
          → IsNoError
              (Action.◌>>◌ (ignore_err (λ (_ : H.State). (r, t))) (run_all H root commands) s).0
      ends (ok a) t h = h t
      ends (err e) t h = h t
      ends panic t h = tt
      ends unfinished t h = tt

  on_session_lem :
      (session : Script Bool) (rest : Script (Unit {0})) (s : H.State)
      → on_session (follow H root session s).0 (follow H root session s).1 (follow H root rest)
        ≡ follow H root (after_session session rest) s
  unfolding on_session IsNoError
  on_session_lem (commands, outcome) rest s =
      ends outcome (run_all H root commands s).0 (run_all H root commands s).1
        (run_all-IsNoError commands s)
      ∙ joined outcome
    where
      -- both sides, behind the commands
      behind : Result Bool → Action.Action H.State (Unit {0})
      behind (ok true) = Action.pure tt
      behind (ok false) = follow H root rest
      behind (err e) = follow H root rest
      behind panic = from panic
      behind unfinished = from unfinished

      ends :
          (b : Result Bool) (r : Result (Unit {0})) (t : H.State)
          → IsNoError r
          → (let o = Action.◌>>◌ (λ (_ : H.State). (r, t)) (from b) s in
              on_session o.0 o.1 (follow H root rest))
            ≡ Action.◌>>◌ (λ (_ : H.State). (r, t)) (behind b) s
      ends (ok true) (ok a) t h = refl
      ends (ok false) (ok a) t h = refl
      ends (err e) (ok a) t h = refl
      ends panic (ok a) t h = refl
      ends unfinished (ok a) t h = refl
      ends b (err e) t h = absurd h
      ends b panic t h = refl
      ends b unfinished t h = refl

      joined :
          (b : Result Bool)
          → Action.◌>>◌ (run_all H root commands) (behind b) s
            ≡ follow H root (after_session (commands, b) rest) s
      joined (ok true) = refl
      joined (ok false) = sym (follow-after H root commands rest s)
      joined (err e) = sym (follow-after H root commands rest s)
      joined panic = refl
      joined unfinished = refl

  module _ (from_str : Text → Result DaemonMessage) where
    -- A connection runs its commands up to the first line that is not one, each whether or not
    -- the one before failed, and ends with true at a kill, with false at the end of the stream or
    -- at an empty line, and with the error of a line that cannot be read or parsed.
    pub handle_client_lem :
        (stream : Stream) (s : H.State)
        → handle_client H from_str root stream s ≡ follow H root (session_script from_str stream) s
    unfolding handle_client on_message
    handle_client_lem [] s = unfold run_all in refl
    handle_client_lem (ok [] ∷ stream) s = unfold run_all in refl
    handle_client_lem (ok (c ∷ line) ∷ stream) s =
        ap (λ k. on_message (from_str (c ∷ line)) k s) (fun_ext (handle_client_lem stream))
        ∙ on_message_lem (from_str (c ∷ line)) (session_script from_str stream) s
    handle_client_lem (err e ∷ stream) s = unfold run_all in refl
    handle_client_lem (panic ∷ stream) s = unfold run_all in refl
    handle_client_lem (unfinished ∷ stream) s = unfold run_all in refl

    -- The loop over the connections runs the commands of its script in their order, each whether
    -- or not the one before failed, and ends as the script says: with success at the first kill,
    -- with the error of a connection that cannot be accepted, and not at the error of a session.
    pub serve_lem :
        (incoming : List (Result Stream)) (s : H.State)
        → serve H from_str root incoming s ≡ follow H root (server_script from_str incoming) s
    unfolding serve on_session
    serve_lem [] s = unfold run_all in refl
    serve_lem (ok stream ∷ incoming) s =
        ap (λ (o : Result Bool × H.State). on_session o.0 o.1 (serve H from_str root incoming))
          (handle_client_lem stream s)
        ∙ ap
            (λ k.
              on_session (follow H root (session_script from_str stream) s).0
                (follow H root (session_script from_str stream) s).1 k)
            (fun_ext (serve_lem incoming))
        ∙ on_session_lem (session_script from_str stream) (server_script from_str incoming) s
    serve_lem (err e ∷ incoming) s = unfold run_all in refl
    serve_lem (panic ∷ incoming) s = unfold run_all in refl
    serve_lem (unfinished ∷ incoming) s = unfold run_all in refl
