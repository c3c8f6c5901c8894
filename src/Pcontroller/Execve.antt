-- ===== src/Pcontroller/Execve.antt =====
-- proctool/pcontroller.rs: a process that is made to call execve.
use process_magic.Prelude.{ℕ, ◌<◌, ◌≡◌, ap, arith, List, [], ◌∷◌, ok}
use process_magic.Host.{Host, Registers, execve_no}
use process_magic.Host.Machine.{TraceeMachine}
use process_magic.Host.Mapping.{MemoryCalls}
use process_magic.Host.Mapping.New.{NewMemory}
use process_magic.Pcontroller.{ProcessController, Session}
use process_magic.Pcontroller.Syscalls.{
  get_memory_maps, find_svc_instruction, prepare_syscall, execute_syscall,
}
use process_magic.Pcontroller.Syscalls.Cached.{get_memory_maps-kept}
use process_magic.Pcontroller.Syscalls.Execute.{syscall_registers, prepare_syscall_at_pc_lem}
use process_magic.Pcontroller.Regions.{inject_bytes}
use process_magic.Pcontroller.Regions.Injecting.{Vdso, IsReady, find_svc_instruction-at}

-- The maps are read before anything else is done.
pub inject_bytes-cached :
    (H : Host) (bytes : List ℕ) (s t : Session H.State) (svc : ℕ) (V : Vdso H t.controller svc)
    → get_memory_maps H s ≡ (ok V.maps, t)
    → inject_bytes H bytes s ≡ inject_bytes H bytes t
unfolding inject_bytes execute_syscall prepare_syscall find_svc_instruction
inject_bytes-cached H bytes s t svc V e = ground (arith, e, get_memory_maps-kept H t V.maps V.kept)

module _ (H : Host) (c : ProcessController) (X : TraceeMachine H c.pid) (svc : ℕ) where
  open X use {tracee}
  open tracee use {IsStopped, registers, after_setregset, registers-setregset, setregset-IsStopped}

  -- The tracee is stopped before the call, with its three arguments.
  abbrev pub IsExecuting : ℕ → ℕ → ℕ → H.State → Type 0
  IsExecuting path argv envp t =
      IsStopped t
      × ((registers t).pc ≡ svc)
      × ((registers t).regs 8 ≡ H.sysno execve_no)
      × ((registers t).regs 0 ≡ path)
      × ((registers t).regs 1 ≡ argv)
      × ((registers t).regs 2 ≡ envp)

  abbrev exec_registers : ℕ → ℕ → ℕ → H.State → Registers
  exec_registers path argv envp s =
      syscall_registers H execve_no (path ∷ argv ∷ envp ∷ []) svc (registers s)

  abbrev pub executing : ℕ → ℕ → ℕ → H.State → H.State
  executing path argv envp s = after_setregset s (exec_registers path argv envp s)

  pub executing-IsExecuting :
      (path argv envp : ℕ) (s : H.State)
      → IsStopped s
      → IsExecuting path argv envp (executing path argv envp s)
  executing-IsExecuting path argv envp s h =
      let regs : Registers = exec_registers path argv envp s in
      let e : registers (after_setregset s regs) ≡ regs = registers-setregset s regs h in
      (
        setregset-IsStopped s regs h,
        ap (λ (q : Registers). q.pc) e,
        ap (λ (q : Registers). q.regs 8) e,
        ap (λ (q : Registers). q.regs 0) e,
        ap (λ (q : Registers). q.regs 1) e,
        ap (λ (q : Registers). q.regs 2) e,
      )

  pub prepare_execve :
      (K : MemoryCalls H c.pid X) (N : NewMemory H c.pid X K) (fuel : 0 < H.fuel) (V : Vdso H c svc)
      (path argv envp : ℕ) (s : H.State)
      → IsReady H c X K N fuel svc V s
      → prepare_syscall H execve_no (path ∷ argv ∷ envp ∷ []) (record { controller = c; os = s })
        ≡ (ok tt, record { controller = c; os = executing path argv envp s })
  unfolding prepare_syscall
  prepare_execve K N fuel V path argv envp s r = ground (
    arith,
    find_svc_instruction-at H c X K N fuel svc V s r,
    prepare_syscall_at_pc_lem H c tracee execve_no (path ∷ argv ∷ envp ∷ []) svc s r.stopped
        (omega arith),
  )
