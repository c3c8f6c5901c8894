-- ===== src/Host.antt =====
-- The machine that the program runs on, as the program sees it: the calls that it makes through
-- the crates nix, libc, syscalls and procfs and through the standard library, and a monad for
-- code that makes them. What a call does is a parameter, `perform`; a log line or a printed line
-- is no call.
pub mod Action
pub mod Keeping
pub mod Log
pub mod Mapping
pub mod Memory
pub mod Tracee
pub mod Machine
use process_magic.Prelude.{ℕ, Bool, Option, List, Result}
use process_magic.Int.{ℤ}
use process_magic.Text.{Text}
use process_magic.Words.{Profile}

-- `libc::user_regs_struct` on arm64. `regs` is the array x0 to x30: only indices below 31 count.
pub record Registers : Type 0 where
  pub regs : ℕ → ℕ
  pub sp : ℕ
  pub pc : ℕ
  pub pstate : ℕ

pub data Signal : Type 0 where
  sigstop sigcont : Signal

-- The flags of `waitpid`
pub data WaitPidFlag : Type 0 where
  wstopped wall : WaitPidFlag

-- The two register sets of `Tracer::get_registers`
pub data RegisterSet : Type 0 where
  nt_prstatus nt_prfpreg : RegisterSet

pub data OpenMode : Type 0 where
  read_only write_only read_write read_only_noctty : OpenMode

-- `fork` tells the parent the child's pid.
pub data ForkResult : Type 0 where
  parent : ℤ → ForkResult
  child : ForkResult

-- The system calls that the program makes a tracee run.
pub data Sysno : Type 0 where
  read_no write_no close_no openat_no mmap_no munmap_no mprotect_no execve_no : Sysno

-- An entry of a directory: whether it is a directory, its name if that is text, and its path.
pub record DirEntry : Type 0 where
  pub is_dir : Bool
  pub file_name : Option Text
  pub path : Text

-- The calls, and what each returns. A tracing call names the tracee by its pid. An `execv` that has
-- success does not return. `open_read` is `File::open`, and `read_file` reads a whole file; `write_all`
-- writes all the bytes or fails; `init_logging` is the set-up of the crate log4rs.
pub data Call : Type 0 where
  ptrace_attach ptrace_step ptrace_syscall ptrace_getregset : ℤ → Call
  ptrace_seize ptrace_interrupt : ℤ → Call
  ptrace_traceme : Call
  ptrace_detach : ℤ → Option Signal → Call
  ptrace_setregset : ℤ → Registers → Call
  ptrace_read : ℤ → ℕ → Call
  ptrace_write : ℤ → ℕ → ℕ → Call
  ptrace_getregset_raw : ℤ → RegisterSet → Call
  ptrace_setregset_raw : ℤ → RegisterSet → List ℕ → Call
  waitpid : ℤ → Option WaitPidFlag → Call
  process_vm_readv : ℤ → ℕ → ℕ → Call
  process_vm_writev : ℤ → List ℕ → ℕ → ℕ → Call
  fork setsid getuid : Call
  getsid : ℤ → Call
  raise : Signal → Call
  open_read : Text → Call
  read_file : Text → Call
  read_dir : Text → Call
  open_mem : Text → Call
  seek : ℕ → ℕ → Call
  read_exact : ℕ → ℕ → Call
  write_at : ℕ → List ℕ → Call
  open_fd : Text → OpenMode → Call
  write : ℕ → List ℕ → Call
  write_all : ℕ → List ℕ → Call
  tiocsti : ℕ → ℕ → Call
  close : ℕ → Call
  stat_tty : ℤ → Call
  tcp_bind tcp_connect : Text → Call
  tcp_write : ℕ → List ℕ → Call
  spawn : List Text → Call
  wait_spawned : Call
  open_create : Text → Call
  getpid : Call
  tcgetpgrp tcgetsid : ℕ → Call
  getpgid : ℤ → Call
  setpgid : ℤ → ℤ → Call
  kill : ℤ → Signal → Call
  setuid : ℕ → Call
  tiocsctty tiocgwinsz : ℕ → Call
  dup2 : ℕ → ℕ → Call
  execv : Text → List Text → Call
  umask_empty : Call
  chdir : Text → Call
  getrlimit_nofile : Call
  init_logging : Text → Call

abbrev pub Reply : Call → Type 0
Reply (ptrace_getregset pid) = Registers
Reply (ptrace_read pid addr) = ℕ
Reply (ptrace_getregset_raw pid kind) = List ℕ
Reply (process_vm_readv pid base len) = List ℕ
Reply (process_vm_writev pid bytes base len) = ℕ
Reply fork = ForkResult
Reply getuid = ℕ
Reply getpid = ℤ
Reply (tcgetpgrp fd) = ℤ
Reply (tcgetsid fd) = ℤ
Reply (tcp_connect addr) = ℕ
Reply (open_create path) = ℕ
Reply (getsid pid) = ℤ
Reply (read_file path) = List ℕ
Reply (read_dir path) = List (Result DirEntry)
Reply (open_mem path) = ℕ
Reply (read_exact fd len) = List ℕ
Reply (open_fd path mode) = ℕ
Reply (write fd bytes) = ℕ
Reply (stat_tty pid) = ℕ × ℕ
Reply (getpgid pid) = ℤ
Reply (tiocgwinsz fd) = ℕ × ℕ
Reply (dup2 from to) = ℕ
Reply (execv path args) = ⊥
Reply getrlimit_nofile = ℕ × ℕ
Reply _ = Unit {0}

-- `sysno` gives the number of a system call on the program's target. `profile` is the build of the
-- program, and `fuel` bounds the rounds of a loop that waits for a tracee: a loop that has used it up
-- is `unfinished`.
pub record Host : Type 1 where
  pub State : Type 0
  pub perform : (c : Call) → State → Result (Reply c) × State
  pub sysno : Sysno → ℕ
  pub profile : Profile
  pub fuel : ℕ
