-- ===== src/Tests/Serving.antt =====
-- The theorems on the daemon, applied to concrete connections and processes.
use process_magic.Prelude.{
  ℕ, zero, suc, ◌≡◌, true, false, [], ◌∷◌, parse_int, invalid_digit, Result, ok, err, some,
}
use process_magic.Int.{pos}
use process_magic.Text.{Text, codes}
use process_magic.Messages.{Args, DaemonMessage, command, kill}
use process_magic.Myprocfs.{MemoryMap}
use process_magic.Pcontroller.{Session}
use process_magic.Daemon.Server.{Stream, handle_client, serve}
use process_magic.Daemon.Server.Scripts.{follow}
use process_magic.Daemon.Server.Sessions.{handle_client_lem, serve_lem}
use process_magic.Tests.Machine.{Toy, toy_host, tracee_pid, machine_at_rest}

-- a protocol of two messages
abbrev parse_message : Text → Result DaemonMessage
parse_message [] = err (parse_int invalid_digit)
parse_message (c ∷ d ∷ line) = err (parse_int invalid_digit)
parse_message (c ∷ []) = ok (if_kill c)
  where
    if_kill : ℕ → DaemonMessage
    if_kill zero = kill
    if_kill (suc n) = command (Args.pause (pos n))

-- a pause of a process, a kill, and what nobody reads any more
abbrev stream : Stream
stream = ok (43 ∷ []) ∷ ok (0 ∷ []) ∷ ok [] ∷ []

handle_client_example :
    handle_client toy_host parse_message [] stream machine_at_rest
    ≡ follow toy_host [] (Args.pause (pos 42) ∷ [], ok true) machine_at_rest
handle_client_example = handle_client_lem toy_host [] parse_message stream machine_at_rest

-- a connection that ends with an error, and the one with the kill
serve_example :
    serve toy_host parse_message [] (ok (ok (1 ∷ 2 ∷ []) ∷ []) ∷ ok stream ∷ []) machine_at_rest
    ≡ follow toy_host [] (Args.pause (pos 42) ∷ [], ok tt) machine_at_rest
serve_example =
    serve_lem toy_host [] parse_message (ok (ok (1 ∷ 2 ∷ []) ∷ []) ∷ ok stream ∷ []) machine_at_rest

-- the map of the system call instruction, which has been read before
abbrev pub vdso_map : MemoryMap
vdso_map = record {
  base_address = 8192;
  size = 8;
  label = codes "[vdso]";
  readable = true;
  writable = false;
  executable = true;
  private = true;
  bytes = [];
}

abbrev pub vdso_session : Session Toy
vdso_session = record {
  controller = record {
    pid = tracee_pid;
    memory_maps = some (vdso_map ∷ []);
    detach_on_drop = true;
  };
  os = machine_at_rest;
}
