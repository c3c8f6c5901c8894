-- ===== src/Tests/Machine.antt =====
-- A machine with one tracee, over which what the code relies on of ptrace(2) holds. A step moves its
-- program counter on by one instruction, except while it waits in a system call.
use process_magic.Prelude.{
  ℕ, zero, suc, ◌+◌, ◌-◌, ◌%◌, ◌/◌, ◌<◌, ◌≡◌, refl, Bool, true, false, ◌&&◌, List, [], ◌∷◌, ◌++◌,
  arith, Result, ok, err, errno, length, get_or, leb, ltb, ◌==◌, if◌then◌else◌,
}
use process_magic.Int.{ℤ, pos}
use process_magic.Text.{Text, codes, text_eq}
use process_magic.Words.{debug}
use process_magic.Words.Bytes.{to_le}
use process_magic.Host
use process_magic.Host.{
  Host, Registers, Sysno, Call, Reply, ptrace_getregset, ptrace_setregset, ptrace_step, ptrace_read,
  ptrace_write, ptrace_attach, ptrace_syscall, ptrace_detach, process_vm_readv, process_vm_writev,
  waitpid, read_file, read_exact, seek, open_mem,
}
use process_magic.Words.Bytes.{slice}
use process_magic.Pcontroller.{new, Session}
use process_magic.Host.Memory.{TraceeMemory, word_at, poked}
use process_magic.Host.Tracee.{Tracee}
use process_magic.Host.Machine.{TraceeMachine}

pub data Wait : Type 0 where
  rounds : ℕ → Wait
  forever : Wait

pub record Toy : Type 0 where
  pub stopped : Bool
  pub cells : ℕ → ℕ
  pub at_regs : Registers
  pub waiting : Wait
  pub mapped_end : ℕ

abbrev pub bytes_of : Toy → ℕ → ℕ
bytes_of s b = s.cells b % 256

abbrev pub advance : Wait → Registers → Wait × Registers
advance (rounds zero) r = (rounds zero, record r { pc = r.pc + 4 })
advance (rounds (suc n)) r = (rounds n, r)
advance forever r = (forever, r)

abbrev pub toy_set : Toy → Registers → Toy
toy_set s r = record s { at_regs = r }

abbrev pub toy_poke : Toy → ℕ → ℕ → Toy
toy_poke s a w = record s { cells = poked (bytes_of s) a w }

abbrev pub toy_stepping : Toy → Toy
toy_stepping s = record s { stopped = false }

-- the number of mmap, with no address
abbrev pub asks_for_memory : Registers → Bool
asks_for_memory r = (r.regs 8 == 222) && (r.regs 0 == 0)

-- A step; new memory begins where the mapped memory ends.
abbrev pub toy_stop : Toy → Toy
toy_stop s =
    let next : Registers = (advance s.waiting s.at_regs).1 in
    record s {
      stopped = true;
      waiting = (advance s.waiting s.at_regs).0;
      at_regs = record next {
        regs = λ j. if (j == 0) && asks_for_memory s.at_regs then s.mapped_end else next.regs j;
      };
      mapped_end =
          if asks_for_memory s.at_regs then s.mapped_end + s.at_regs.regs 1 else s.mapped_end;
    }

-- a memory after a write of bytes
abbrev pub toy_fill : Toy → ℕ → List ℕ → Toy
toy_fill s a bytes = record s {
  cells = λ b. if leb a b && ltb b (a + length bytes) then get_or bytes (b - a) 0 else s.cells b;
}

abbrev no_such_process : {A : Type 0} → Toy → Result A × Toy
no_such_process s = (err (errno 3), s)

-- the arguments of the tracee, each ended by a zero
abbrev command_line : List ℕ
command_line = codes "sh" ++ (0 ∷ (codes "-i" ++ (0 ∷ [])))

-- the mapping of the system call instruction
abbrev toy_maps : List ℕ
toy_maps = codes "2000-2008 r-xp 00000000 00:00 0 [vdso]"

abbrev toy_file : Text → List ℕ
toy_file path =
    if text_eq path (codes "/proc/42/cmdline")
    then command_line
    else if text_eq path (codes "/proc/42/maps")
    then toy_maps
    else []

abbrev toy_perform : (c : Call) → Toy → Result (Reply c) × Toy
toy_perform (ptrace_getregset pid) s = if s.stopped then (ok s.at_regs, s) else no_such_process s
toy_perform (ptrace_setregset pid r) s =
    if s.stopped then (ok tt, toy_set s r) else no_such_process s
toy_perform (ptrace_step pid) s = if s.stopped then (ok tt, toy_stepping s) else no_such_process s
toy_perform (ptrace_read pid a) s =
    if s.stopped then (ok (word_at (bytes_of s) a), s) else no_such_process s
toy_perform (ptrace_write pid a w) s =
    if s.stopped then (ok tt, toy_poke s a w) else no_such_process s
toy_perform (waitpid pid flag) s = if s.stopped then no_such_process s else (ok tt, toy_stop s)
toy_perform (ptrace_syscall pid) s =
    if s.stopped then (ok tt, toy_stepping s) else no_such_process s
toy_perform (ptrace_attach pid) s = (ok tt, toy_stepping s)
toy_perform (ptrace_detach pid signal) s = (ok tt, s)
toy_perform (process_vm_readv pid base len) s = (ok (slice (bytes_of s) base len), s)
toy_perform (process_vm_writev pid bytes base len) s = (ok (length bytes), toy_fill s base bytes)
toy_perform (read_file path) s = (ok (toy_file path), s)
toy_perform (Host.stat_tty pid) s = (ok (136, 3), s)
toy_perform (Host.open_fd path mode) s = (ok 4, s)
toy_perform (Host.write fd bytes) s = (ok (length bytes), s)
toy_perform (open_mem path) s = (ok 3, s)
toy_perform (read_exact fd len) s = (ok (0x2a ∷ []), s)
toy_perform (seek fd offset) s = (ok tt, s)
toy_perform _ s = no_such_process s

-- the numbers of the system calls on arm64
abbrev arm64_sysno : Sysno → ℕ
arm64_sysno Host.read_no = 63
arm64_sysno Host.write_no = 64
arm64_sysno Host.close_no = 57
arm64_sysno Host.openat_no = 56
arm64_sysno Host.mmap_no = 222
arm64_sysno Host.munmap_no = 215
arm64_sysno Host.mprotect_no = 226
arm64_sysno Host.execve_no = 221

abbrev pub toy_host : Host
toy_host = record {
  State = Toy;
  perform = toy_perform;
  sysno = arm64_sysno;
  profile = debug;
  fuel = 5;
}

abbrev IsHeld : Toy → Type 0
IsHeld s = s.stopped ≡ true

get_or-to_le-lt : (n w k : ℕ) → get_or (to_le n w) k 0 < 256
unfolding to_le
get_or-to_le-lt zero w k = omega arith
get_or-to_le-lt (suc n) w zero = omega arith
get_or-to_le-lt (suc n) w (suc k) = get_or-to_le-lt n (w / 256) k

pub bytes-poke : (s : Toy) (a w b : ℕ) → bytes_of (toy_poke s a w) b ≡ poked (bytes_of s) a w b
bytes-poke s a w b = ground (arith, get_or-to_le-lt 8 w (b - a))

abbrev pub toy_tracee : (pid : ℤ) → Tracee toy_host pid
toy_tracee pid = record {
  IsStopped = IsHeld;
  registers = λ s. s.at_regs;
  getregset = λ s h. rw h;
  after_setregset = toy_set;
  setregset = λ s r h. rw h;
  registers-setregset = λ s r h. refl;
  setregset-IsStopped = λ s r h. h;
  stepping = toy_stepping;
  after_step = λ s. toy_stop (toy_stepping s);
  step = λ s h. rw h;
  stops = λ s h. refl;
  step-IsStopped = λ s h. refl;
}

abbrev pub toy_memory : (pid : ℤ) → TraceeMemory toy_host pid
toy_memory pid = record {
  byte_at = bytes_of;
  byte_at-lt = λ s a. omega arith;
  Accessible = λ s a. IsHeld s;
  peek = λ s a h. rw h;
  after_poke = toy_poke;
  poke = λ s a w h. rw h;
  byte_at-poke = λ s a w b h hw. bytes-poke s a w b;
  poke-Accessible = λ s a w b h hb. h;
}

abbrev pub toy_machine : (pid : ℤ) → TraceeMachine toy_host pid
toy_machine pid = record {
  tracee = toy_tracee pid;
  memory = toy_memory pid;
  registers-poke = λ s a w h. refl;
  poke-IsStopped = λ s a w h. h;
  byte_at-setregset = λ s r b h. refl;
  setregset-Accessible = λ s r a h ha. ha;
}

abbrev pub tracee_pid : ℤ
tracee_pid = pos 42

-- letters from address 100 on, and the instruction `svc #0` at 8196
abbrev pub initial_cells : ℕ → ℕ
initial_cells b =
    if leb 100 b && ltb b 126
    then 65 + (b - 100)
    else if leb 8196 b && ltb b 8200
    then get_or (0x01 ∷ 0 ∷ 0 ∷ 0xd4 ∷ []) (b - 8196) 0
    else 32

abbrev pub registers_at_rest : Registers
registers_at_rest = record { regs = λ i. i; sp = 4096; pc = 200; pstate = 0 }

abbrev pub machine_waiting : Wait → Toy
machine_waiting w = record {
  stopped = true;
  cells = initial_cells;
  at_regs = registers_at_rest;
  waiting = w;
  mapped_end = 65536;
}

abbrev pub machine_at_rest : Toy
machine_at_rest = machine_waiting (rounds 0)

abbrev pub session : Toy → Session Toy
session s = record { controller = new tracee_pid; os = s }

-- the process has gone
abbrev pub machine_gone : Toy
machine_gone = record machine_at_rest { stopped = false }
