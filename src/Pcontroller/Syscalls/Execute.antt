-- ===== src/Pcontroller/Syscalls/Execute.antt =====
-- A system call that the tracee is made to run: the registers that it finds, and the result.
use process_magic.Prelude.{
  ℕ, zero, suc, ◌-◌, ◌≤◌, ◌<◌, ◌≡◌, ◌≢◌, sym, ap, fun_ext, ◌∙◌, List, arith, ok, length, get_or,
  ltb, ◌==◌, if◌then◌else◌,
}
use process_magic.Host.{Host, Registers, Sysno}
use process_magic.Host.Tracee.{Tracee, steps}
use process_magic.Pcontroller.{ProcessController, Session, set_registers}
use process_magic.Pcontroller.Waiting.{get_registers-at, ensure_not_in_syscall_returns}
use process_magic.Pcontroller.Syscalls.{
  update, load_args, prepare_syscall_at_pc, execute_syscall_at_pc,
}
use process_magic.Pcontroller.Syscalls.Loaded.{load_args-loaded}

-- What the kernel is to find: the number in x8, the arguments from x0 on, and the rest as it was.
abbrev pub syscall_registers : Host → Sysno → List ℕ → ℕ → Registers → Registers
syscall_registers H sysno args pc r = record r {
  regs = λ j.
      if ltb j (length args) then get_or args j 0 else if j == 8 then H.sysno sysno else r.regs j;
  pc = pc;
}

minus_zero : (j : ℕ) → j - 0 ≡ j
minus_zero j = omega arith

pub load_args_syscall :
    (H : Host) (sysno : Sysno) (args : List ℕ) (pc : ℕ) (r : Registers)
    → length args ≤ 8
    → load_args 0 args (update r.regs 8 (H.sysno sysno))
      ≡ ok ((syscall_registers H sysno args pc r).regs)
load_args_syscall H sysno args pc r h =
    load_args-loaded 0 args (update r.regs 8 (H.sysno sysno)) (omega arith)
    ∙ ap ok (fun_ext λ j. ground (arith, ap (λ t. get_or args t 0) (minus_zero j)))

module _ (H : Host) (c : ProcessController) (T : Tracee H c.pid) where
  open T use {
    IsStopped, registers, after_setregset, setregset, registers-setregset, setregset-IsStopped,
  }

  abbrev at : H.State → Session H.State
  at s = record { controller = c; os = s }

  steps-IsStopped : (n : ℕ) (s : H.State) → IsStopped s → IsStopped (steps T n s)
  steps-IsStopped zero s h = h
  steps-IsStopped (suc n) s h = steps-IsStopped n (T.after_step s) (T.step-IsStopped s h)

  -- the state in which the call is about to run
  abbrev pub prepared : Sysno → List ℕ → ℕ → H.State → H.State
  prepared sysno args pc s = after_setregset s (syscall_registers H sysno args pc (registers s))

  -- For a stopped tracee and at most eight arguments, prepare_syscall_at_pc ends well and sets
  -- the registers to the call's number in x8, the arguments from x0 on and the given program
  -- counter, with every other register kept.
  pub prepare_syscall_at_pc_lem :
      (sysno : Sysno) (args : List ℕ) (pc : ℕ) (s : H.State)
      → IsStopped s
      → length args ≤ 8
      → prepare_syscall_at_pc H sysno args pc (at s) ≡ (ok tt, at (prepared sysno args pc s))
  unfolding prepare_syscall_at_pc set_registers
  prepare_syscall_at_pc_lem sysno args pc s h few = ground (
    arith,
    get_registers-at H c T s h,
    load_args_syscall H sysno args pc (registers s) few,
    setregset s (syscall_registers H sysno args pc (registers s)) h,
  )

  -- For a stopped tracee and at most eight arguments, if the program counter moves at step k + 1
  -- from the prepared registers and not before, and the fuel allows that many rounds,
  -- execute_syscall_at_pc returns x0 behind that step, in the state behind it.
  pub execute_syscall_at_pc_lem :
      (sysno : Sysno) (args : List ℕ) (pc k : ℕ) (s : H.State)
      → IsStopped s
      → length args ≤ 8
      → k < H.fuel
      → ((j : ℕ) → j < k → (registers (steps T (suc j) (prepared sysno args pc s))).pc ≡ pc)
      → (registers (steps T (suc k) (prepared sysno args pc s))).pc ≢ pc
      → let t = steps T (suc k) (prepared sysno args pc s) in
        execute_syscall_at_pc H sysno args pc (at s) ≡ (ok ((registers t).regs 0), at t)
  unfolding execute_syscall_at_pc
  execute_syscall_at_pc_lem sysno args pc k s h few lt same moved =
      let r : Registers = syscall_registers H sysno args pc (registers s) in
      let t : H.State = prepared sysno args pc s in
      let start : (registers t).pc ≡ pc =
        ap (λ (q : Registers). q.pc) (registers-setregset s r h) in
      let stopped : IsStopped t = setregset-IsStopped s r h in
      ground (
        arith,
        prepare_syscall_at_pc_lem sysno args pc s h few,
        ensure_not_in_syscall_returns H c T k t stopped lt (λ j hj. same j hj ∙ sym start)
            (λ e. moved (e ∙ start)),
        get_registers-at H c T (steps T (suc k) t) (steps-IsStopped (suc k) t stopped),
      )
