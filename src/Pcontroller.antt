-- ===== src/Pcontroller.antt =====
-- proctool/pcontroller.rs: control of a traced process. The methods of `ProcessController` are
-- actions over a session, the controller with the state of the machine; the loops over system
-- calls are in the modules below.
pub mod Syscalls
pub mod Memory
pub mod Waiting
pub mod Stdin
pub mod Rot13
pub mod Regions
pub mod Colorize
pub mod Execve
pub mod Takeover
pub mod Keeping
use process_magic.Prelude.{
  ℕ, zero, suc, ◌+◌, ◌-◌, ◌*◌, ◌/◌, ◌%◌, ◌^◌, ◌≤◌, ◌<◌, String, Bool, true, false, ◌&&◌, ◌||◌, not,
  Option, none, some, List, [], ◌∷◌, ◌++◌, Result, ok, err, panic, unfinished, ltb, leb, ◌==◌,
  if◌then◌else◌,
}
use Prim.Native.Nat.{bit_and, bit_or}
use process_magic.Int.{ℤ}
use process_magic.Words.{add_u64}
use process_magic.Host
use process_magic.Host.{
  Host, Registers, Call, Sysno, Signal, WaitPidFlag, ptrace_attach, ptrace_step, ptrace_syscall,
  ptrace_getregset, ptrace_detach, ptrace_setregset, ptrace_read, ptrace_write, waitpid, wstopped,
  wall, sigstop, read_no, write_no,
}
use process_magic.Host.Action.{
  Action, pure, from, gets, fail, labelled, ◌>>=◌, ◌>>◌, modify, ignore_err,
}
use process_magic.Myprocfs.{MemoryMap}

-- `memory_maps` is a `OnceCell`: the methods take `&self` and may fill it once.
pub record ProcessController : Type 0 where
  pub pid : ℤ
  pub memory_maps : Option (List MemoryMap)
  pub detach_on_drop : Bool

-- `ProcessController::new`
abbrev pub new : ℤ → ProcessController
new pid = record { pid = pid; memory_maps = none; detach_on_drop = true }

pub record Session (S : Type 0) : Type 0 where
  pub controller : ProcessController
  pub os : S

abbrev pub svc : ℕ
svc = 0xd4000001

abbrev pub stdout_fileno : ℕ
stdout_fileno = 1

abbrev pub stderr_fileno : ℕ
stderr_fileno = 2

module _ (H : Host) where
  abbrev pub Method : Type 0 → Type 0
  Method A = Action (Session H.State) A

  -- Code that has no part in the controller.
  abbrev pub os : {A : Type 0} → Action H.State A → Method A
  os m s = let (r, t) = m s.os in (r, record s { os = t })

  abbrev pub self_pid : Method ℤ
  self_pid = gets (λ s. s.controller.pid)

  unfoldable pub get_registers : Method Registers
  get_registers = do
    pid ← self_pid
    labelled "PTRACE_GETREGSET failed" (os (H.perform (ptrace_getregset pid)))

  unfoldable pub set_registers : Registers → Method (Unit {0})
  set_registers registers = do
    pid ← self_pid
    labelled "PTRACE_SETREGSET failed" (os (H.perform (ptrace_setregset pid registers)))

  unfoldable pub attach : Method (Unit {0})
  attach = do
    pid ← self_pid
    labelled "PTRACE_ATTACH failed" (os (H.perform (ptrace_attach pid)))
    labelled "failed to waitpid after PTRACE_ATTACH" (os (H.perform (waitpid pid (some wstopped))))

  unfoldable pub step_and_wait : Method (Unit {0})
  step_and_wait = do
    pid ← self_pid
    labelled "PTRACE_SINGLESTEP failed" (os (H.perform (ptrace_step pid)))
    labelled "failed to waitpid (syscall injection)" (os (H.perform (waitpid pid (some wstopped))))

  unfoldable pub in_syscall : Method Bool
  unfolding get_registers step_and_wait
  in_syscall = do
    initial_registers ← get_registers
    step_and_wait
    current_registers ← get_registers
    pure (current_registers.pc == initial_registers.pc)

  -- returns (sysno, first arg)
  unfoldable pub current_syscall : Method (Option (ℕ × ℕ))
  unfolding get_registers
  current_syscall = do
    registers ← get_registers
    pid ← self_pid
    word ← os (H.perform (ptrace_read pid registers.pc))
    let current_instruction = bit_and word 0xffffffff
    pure (
        if current_instruction % 2 ^ 32 == svc
        then some (registers.regs 8, registers.regs 0)
        else none)

  -- The loop of `ensure_not_in_syscall`, for a number of rounds.
  unfoldable pub wait_for_pc : ℕ → ℕ → Method (Unit {0})
  wait_for_pc zero initial_pc = from unfinished
  wait_for_pc (suc rounds) initial_pc = do
    step_and_wait
    current_registers ← get_registers
    if current_registers.pc == initial_pc then wait_for_pc rounds initial_pc else pure tt

  unfoldable pub ensure_not_in_syscall : Method (Unit {0})
  ensure_not_in_syscall = do
    initial_registers ← get_registers
    wait_for_pc H.fuel initial_registers.pc

  unfoldable pub wait_for_syscall : Method (Unit {0})
  wait_for_syscall = do
    pid ← self_pid
    labelled "PTRACE_SYSCALL failed" (os (H.perform (ptrace_syscall pid)))
    labelled "failed to waitpid after PTRACE_SYSCALL" (os (H.perform (waitpid pid (some wstopped))))

  -- per "Stopped states" section of ptrace(2)
  unfoldable pub wait_for_anything : Method (Unit {0})
  wait_for_anything = do
    pid ← self_pid
    labelled "waitpid" (os (H.perform (waitpid pid (some wall))))

  unfoldable pub stop_at_next_syscall : Method (Unit {0})
  unfolding wait_for_anything
  stop_at_next_syscall = do
    pid ← self_pid
    labelled "PTRACE_SYSCALL failed" (os (H.perform (ptrace_syscall pid)))
    wait_for_anything

  unfoldable pub continue_syscall : Method (Unit {0})
  unfolding wait_for_anything
  continue_syscall = do
    pid ← self_pid
    labelled "PTRACE_SYSCALL" (os (H.perform (ptrace_syscall pid)))
    wait_for_anything

  -- returns (buffer address, byte count)
  unfoldable pub is_writing_to_stdout : Method (Option (ℕ × ℕ))
  unfolding get_registers
  is_writing_to_stdout = do
    registers ← get_registers
    pure (
        if (registers.regs 8 == H.sysno write_no) && (registers.regs 0 == stdout_fileno)
        then some (registers.regs 1, registers.regs 2)
        else none)

  -- returns (buffer address, byte count)
  unfoldable pub is_writing_to_stderr : Method (Option (ℕ × ℕ))
  unfolding get_registers
  is_writing_to_stderr = do
    registers ← get_registers
    pure (
        if (registers.regs 8 == H.sysno write_no) && (registers.regs 0 == stderr_fileno)
        then some (registers.regs 1, registers.regs 2)
        else none)

  detach_generic : Option Signal → Method (Unit {0})
  detach_generic signal = do
    pid ← self_pid
    labelled "PTRACE_DETACH failed" (os (H.perform (ptrace_detach pid signal)))

  unfoldable pub detach : Method (Unit {0})
  unfolding detach_generic
  detach = detach_generic none

  unfoldable pub detach_and_stop : Method (Unit {0})
  unfolding detach_generic
  detach_and_stop = detach_generic (some sigstop)

  -- `ProcessController::waitpid`
  unfoldable pub wait_pid : Method (Unit {0})
  wait_pid = do pid ← self_pid; labelled "failed to waitpid" (os (H.perform (waitpid pid none)))

  -- `Drop for ProcessController`
  unfoldable pub drop_controller : Method (Unit {0})
  unfolding detach
  drop_controller = do
    detach_on_drop ← gets (λ s. s.controller.detach_on_drop)
    if detach_on_drop then ignore_err detach else pure tt

  -- A body that owns `controller`, which is dropped however the body returns, also when a panic
  -- unwinds.
  unfoldable pub with_controller : {A : Type 0} → ProcessController → Method A → Action H.State A
  with_controller {A} controller body s = finish (body (record { controller = controller; os = s }))
    where
      finish : Result A × Session H.State → Result A × H.State
      finish (unfinished, t) = (unfinished, t.os)
      finish (r, t) = (r, (drop_controller t).1.os)
