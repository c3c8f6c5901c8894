-- ===== src/Lib.antt =====
-- process-magic: tools that control running processes of Linux on arm64 through ptrace and /proc. A
-- client sends commands to a daemon, which attaches to processes and makes them run system calls; a
-- second pair, the telefork client and server, moves a process to another machine.
--
-- The parts, with their files of the repository:
--   Messages.antt            src/proctool/mod.rs: the commands and the client's messages
--   Daemon.antt              src/proctool/bin/daemon.rs: `run_command`, each arm as a function
--   Daemon/Server.antt       src/proctool/bin/daemon.rs: `listen_forever` and `handle_client`
--   Daemon/Setup.antt        src/proctool/bin/daemon.rs: `main`, `self_daemonize`
--   Pcontroller.antt         src/proctool/pcontroller.rs: `ProcessController`, its `Drop`
--   Pcontroller/Syscalls     the search for an `svc` instruction, and injected system calls
--   Pcontroller/Stdin        `cancel_pending_read`
--   Pcontroller/Rot13        `rot13_byte` and `rot13`
--   Pcontroller/Regions      memory that the tracee is made to map, fill and unmap
--   Pcontroller/Colorize     `read_string` and `colorize_stderr`
--   Pcontroller/Takeover     `takeover`
--   Cryogenics.antt          src/proctool/cryogenics.rs: `freeze` and `thaw`
--   Procinfo.antt            src/proctool/procinfo.rs: the files of one process
--   Procinfo/Listing.antt    src/proctool/procinfo.rs: the commands over all processes
--   Terminals.antt           src/proctool/terminals.rs
--   Terminals/Spawned.antt   src/proctool/terminals.rs: `spawn_on_terminal`
--   Myprocfs.antt            src/teleclient/myprocfs.rs: lines of /proc/PID/maps, the command line
--   Myprocfs/Files.antt      src/teleclient/myprocfs.rs: the functions that read the files
--   Client.antt              src/proctool/bin/client.rs: the command line, `main` as `run`
--   Tracer.antt              src/teleclient/ptrace.rs, src/teleclient/bin/main.rs and
--                            src/common/httpapi.rs
--   Spawn.antt               src/teleserver/spawn.rs
--   Spawn/Route.antt         src/teleserver/bin/main.rs: `telefork_route`
-- Below them: Host.antt is the machine as the program sees it, Text.antt, Utf8.antt, Words.antt and
-- Int.antt are the parts of Rust's language and standard library that the program uses, and
-- Prelude.antt holds the shared names, the result type and the lists. Tests.antt holds concrete
-- inputs and a small machine on which the theorems are applied.
--
-- How the code is modelled. A call to the crates nix, libc, syscalls and procfs or to the system is
-- a value of `Host.Call`; what it does to the machine is a parameter, `Host.perform`, so that
-- nothing is assumed of it but what a theorem states. Code that makes calls is an `Action`: it
-- takes the state of the machine to a result and a state, also when it fails. A method of
-- `ProcessController` is an action over a session, the controller with the state of the machine. A
-- result is a value, an error, a panic, or `unfinished`; an exit of the program is an error. What
-- the theorems ask of the machine is written in eight records: Host/Tracee.antt (its registers and
-- its steps), Host/Memory.antt (its words) and Host/Machine.antt (both), which state what ptrace(2)
-- documents, Host/Mapping.antt and Host/Mapping/New.antt, what mmap(2) and its kin document,
-- Myprocfs/Recorded.antt, the file /proc/PID/mem, and Client/StateFile.antt, a file that is opened
-- without O_TRUNC. A log line or a line for the user is no call; what a listing prints is the list
-- of its lines.
--
-- Numbers are natural numbers; an addition or a subtraction of `u64` that leaves 64 bits panics in a
-- debug build and wraps around in a release build, and `Host.profile` says which build it is. A `str`
-- is the list of its code points, and the files of /proc are bytes, which are decoded as UTF-8.
--
-- Fuel. `Host.fuel` bounds the rounds of the loops that wait for a tracee, which may run forever, and
-- of the walk to the root of the process tree; a loop that has used it up is `unfinished`. The
-- theorems on these loops say how much is enough. Every other loop is structural.
--
-- Not modelled: the launch of the telefork server, which configures rocket; the encoding of messages
-- and states by serde and the HTTP request of the telefork client, which are parameters; the set-up of
-- log4rs, which is one call; and the sample programs under examples/.
pub mod Prelude
pub mod Int
pub mod Text
pub mod Utf8
pub mod Words
pub mod Host
pub mod Messages
pub mod Myprocfs
pub mod Pcontroller
pub mod Terminals
pub mod Procinfo
pub mod Daemon
pub mod Cryogenics
pub mod Spawn
pub mod Tracer
pub mod Client
mod Tests
