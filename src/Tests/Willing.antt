-- ===== src/Tests/Willing.antt =====
-- A machine that grants what is asked of it, and the theorems on what the programs do with it.
use process_magic.Prelude.{
  ℕ, ◌+◌, ◌%◌, ◌++◌, if◌then◌else◌, List, ◌∷◌, ◌≡◌, refl, arith, Bool, some, [], Result, ok, err,
  unfinished, errno, length, replicate,
}
use process_magic.Int.{pos}
use process_magic.Text.{Text, codes, text_eq, format}
use process_magic.Words.{debug}
use process_magic.Host
use process_magic.Host.{Host, Call, Reply, Registers}
use process_magic.Host.Action.{Action}
use process_magic.Host.Log.{logged}
use process_magic.Messages.{Args}
use process_magic.Terminals.Spawned.{spawn_on_terminal}
use process_magic.Terminals.Spawned.User.{ExecsAs, spawn_on_terminal-ExecsAs}
use process_magic.Daemon.{run_command}
use process_magic.Daemon.Detached.{Detached, Traces, run_command-Detached}
use process_magic.Myprocfs.Files.{read_memory_maps, populate_memory, populate_maps}
use process_magic.Myprocfs.Lines.{lines, parse_map_lines}
use process_magic.Words.Bytes.{slice}
use process_magic.Tracer.{TeleforkApiRequest, seize_and_interrupt, read_process, telefork_client}
use process_magic.Spawn.{
  spawn_process, initialize_process, set_register_data, unmap_existing_memory,
}
use process_magic.Spawn.Route.{Status, TeleforkApiResponse, telefork_route}
use process_magic.Spawn.Telefork.{Delivers, ended, telefork_client-spawn_process}
use process_magic.Tests.Machine.{toy_host, tracee_pid, machine_at_rest}

abbrev pub still : Registers
still = record { regs = λ i. 0; sp = 0; pc = 0; pstate = 0 }

-- a file of lines
abbrev file : List Text → List ℕ
file [] = []
file (line ∷ rest) = line ++ (10 ∷ file rest)

abbrev attribute : Text → Text → Text
attribute name value = name ++ (b':' ∷ (9 ∷ value))

abbrev status : Text → Text → Text → List ℕ
status name ppid pgid = file (
    attribute (codes "Name") name
    ∷ attribute (codes "PPid") ppid
    ∷ attribute (codes "NSpgid") pgid
    ∷ attribute (codes "Uid") (codes "1000 1000 1000 1000")
    ∷ [])

-- the files of a shell, of the process above it, and of a process with one map
abbrev file_of : Text → List ℕ
file_of path =
    if text_eq path (codes "/proc/42/status")
    then status (codes "sh") (codes "7") (codes "42")
    else if text_eq path (codes "/proc/42/stat")
    then codes "42 (sh) S 7 42 42 34819 42"
    else if text_eq path (codes "/proc/7/status")
    then status (codes "login") (codes "0") (codes "5")
    else if text_eq path (codes "/proc/7/stat")
    then codes "7 (login) S 0 5 5 34819 5"
    else if text_eq path (codes "/proc/9/maps")
    then file (
        codes "10000-12000 r-xp 00000000 00:00 0 [vdso]"
        ∷ codes "20000-21000 ---p 00000000 00:00 0 guard"
        ∷ [])
    else []

-- the memory of a process
abbrev pub memory_of : ℕ → ℕ
memory_of a = a % 256

-- the state is the offset of the file that is open, or the user that has been changed to
abbrev grant : (c : Call) → ℕ → Result (Reply c) × ℕ
grant Host.fork s = (ok (Host.parent (pos 7)), s)
grant (Host.waitpid pid flag) s = (ok tt, s)
grant (Host.getpgid pid) s = (ok pid, s)
grant (Host.setpgid pid group) s = (ok tt, s)
grant Host.setsid s = (ok tt, s)
grant (Host.kill pid signal) s = (ok tt, s)
grant (Host.open_fd path mode) s = (ok 3, s)
grant (Host.tiocsctty fd) s = (ok tt, s)
grant (Host.setuid uid) s = (ok tt, uid)
grant (Host.dup2 old new) s = (ok new, s)
grant (Host.close fd) s = (ok tt, s)
grant (Host.write fd bytes) s = (ok (length bytes), s)
grant (Host.execv path args) s = (unfinished, s)
grant (Host.ptrace_seize pid) s = (ok tt, s)
grant (Host.ptrace_interrupt pid) s = (ok tt, s)
grant (Host.ptrace_getregset pid) s = (ok still, s)
grant (Host.ptrace_getregset_raw pid kind) s = (ok (replicate 272 1), s)
grant (Host.ptrace_setregset_raw pid kind bytes) s = (ok tt, s)
grant (Host.ptrace_detach pid signal) s = (ok tt, s)
grant (Host.open_read path) s = (ok tt, s)
grant (Host.read_file path) s = (ok (file_of path), s)
grant (Host.getsid pid) s = (ok (pos 1), s)
grant (Host.open_mem path) s = (ok 3, s)
grant (Host.seek fd offset) s = (ok tt, offset)
grant (Host.read_exact fd n) s = (ok (slice memory_of s n), s + n)
grant (Host.ptrace_attach pid) s = (ok tt, s)
grant _ s = (err (errno 1), s)

abbrev pub willing : Host
willing = record { State = ℕ; perform = grant; sysno = λ n. 0; profile = debug; fuel = 4 }

spawn_on_terminal-ExecsAs_example :
    ExecsAs 1000
      (spawn_on_terminal
        (logged willing)
        (codes "/bin/sh")
        []
        (codes "pts/1")
        (some 1000)
        (0, [])).1.1
spawn_on_terminal-ExecsAs_example =
    spawn_on_terminal-ExecsAs willing 1000 (codes "/bin/sh") [] (codes "pts/1") 0

-- a redirect that fails, since no system call instruction can be found
run_command-Detached_example :
    Detached toy_host tracee_pid
      (run_command toy_host [] (Args.redirect tracee_pid (codes "tty1")) machine_at_rest)
run_command-Detached_example =
    run_command-Detached toy_host [] (Args.redirect tracee_pid (codes "tty1")) tracee_pid
      (Traces.redirect (codes "tty1")) machine_at_rest

abbrev answer : Result (Status × TeleforkApiResponse) × ℕ → Result Bool × ℕ
answer (ok (_, response), t) = (ok response.success, t)
answer (_, t) = (err (errno 1), t)

abbrev send : TeleforkApiRequest → Action ℕ Bool
send request s = answer (telefork_route willing request s)

send-Delivers : Delivers willing send
send-Delivers request s t code response e = ground (arith, e)

abbrev request : TeleforkApiRequest
request = record {
  gp_register_data = replicate 272 1;
  fp_register_data = replicate 272 1;
  memory_maps = [];
}

seized : seize_and_interrupt willing (pos 42) 5 ≡ (ok (pos 42), 5)
unfolding seize_and_interrupt
seized = refl

read : read_process willing (pos 42) 5 ≡ (ok request, 5)
unfolding read_process read_memory_maps lines parse_map_lines populate_memory populate_maps text_eq
    format
read = refl

spawned :
    spawn_process willing request.gp_register_data request.fp_register_data request.memory_maps 5
    ≡ (ok tt, 5)
unfolding spawn_process initialize_process unmap_existing_memory set_register_data read_memory_maps
    lines parse_map_lines text_eq format
spawned = refl

telefork_client-spawn_process_example :
    telefork_client willing send (pos 42) 5 ≡ ended willing (pos 42) (ok tt) 5
telefork_client-spawn_process_example =
    telefork_client-spawn_process willing send (pos 42) 5 5 5 5 request (ok tt) send-Delivers seized
      read spawned tt
