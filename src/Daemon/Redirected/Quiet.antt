-- ===== src/Daemon/Redirected/Quiet.antt =====
-- proctool/bin/daemon.rs: the closes and the opens that a redirect makes the process run.
use process_magic.Prelude.{ℕ, ◌≤◌, ◌<◌, ◌≡◌, refl, ◌∙◌, arith, true, List, [], ◌∷◌, ok, length}
use process_magic.Host.{Host, Registers, Sysno, close_no, openat_no}
use process_magic.Host.Machine.{TraceeMachine}
use process_magic.Host.Mapping.{MemoryCalls}
use process_magic.Host.Mapping.New.{NewMemory, QuietCalls, is_quiet}
use process_magic.Pcontroller.{ProcessController, Session, set_registers}
use process_magic.Pcontroller.Syscalls.{
  get_memory_maps, find_svc_instruction, prepare_syscall, execute_syscall,
}
use process_magic.Pcontroller.Syscalls.Cached.{get_memory_maps-kept}
use process_magic.Pcontroller.Regions.Restored.{
  call_registers, called, called_returns, called-IsStopped,
}
use process_magic.Pcontroller.Regions.Injecting.{Vdso, IsReady, IsReady-kept, execute_syscall-at}
use process_magic.Daemon.{o_wronly}
use process_magic.Daemon.Rewound.Arguments.{KeepsMapped, KeepsMapped-then}

-- The maps are read before anything else is done.
pub execute_syscall-cached :
    (H : Host) (n : Sysno) (args : List ℕ) (s t : Session H.State) (svc : ℕ)
    (V : Vdso H t.controller svc)
    → get_memory_maps H s ≡ (ok V.maps, t)
    → execute_syscall H n args s ≡ execute_syscall H n args t
unfolding execute_syscall prepare_syscall find_svc_instruction
execute_syscall-cached H n args s t svc V e =
    ground (arith, e, get_memory_maps-kept H t V.maps V.kept)

module _ (H : Host) (c : ProcessController) (X : TraceeMachine H c.pid) (K : MemoryCalls H c.pid X)
    (N : NewMemory H c.pid X K) (Q : QuietCalls H c.pid X K N) (fuel : 0 < H.fuel) (svc : ℕ)
    (V : Vdso H c svc) where
  open X use {tracee, memory}
  open tracee use {
    IsStopped, registers, after_setregset, setregset, registers-setregset, setregset-IsStopped,
  }
  open N use {IsMapped, HasRoom}

  abbrev at : H.State → Session H.State
  at s = record { controller = c; os = s }

  abbrev pub Ready : H.State → Type 0
  Ready = IsReady H c X K N fuel svc V

  abbrev pub Keeps : H.State → H.State → Type 0
  Keeps = KeepsMapped H c X K N fuel svc V

  abbrev pub run : Sysno → List ℕ → H.State → H.State
  run n args = called H c X K fuel n args svc

  -- a close or an openat
  run_lem :
      (n : Sysno) (args : List ℕ) (s : H.State)
      → is_quiet n ≡ true
      → length args ≤ 8
      → (call_registers H c X K fuel n args svc s).regs 8 ≡ H.sysno n
      → Ready s
      → (execute_syscall H n args (at s)
          ≡ (ok ((registers (run n args s)).regs 0), at (run n args s)))
        × Ready (run n args s)
        × Keeps s (run n args s)
  run_lem n args s q few number r =
      let (moved, has_svc, kept) =
        Q.quiet n s (call_registers H c X K fuel n args svc s) q r.stopped r.has_svc number in
      (
        execute_syscall-at H c X K N fuel svc V n args s r
            ∙ called_returns H c X K fuel n args svc s r.stopped few moved,
        IsReady-kept H c X K N fuel svc V s (run n args s) r
            (called-IsStopped H c X K fuel n args svc s r.stopped) has_svc kept,
        kept,
      )

  -- behind the two closes
  abbrev pub closed : H.State → H.State
  closed s = run close_no (2 ∷ []) (run close_no (1 ∷ []) s)

  abbrev pub openat_args : ℕ → List ℕ
  openat_args name = 0 ∷ name ∷ o_wronly ∷ 0 ∷ []

  -- behind the two opens of the file whose name stands at the address, and back at the registers
  abbrev pub reopened : ℕ → Registers → H.State → H.State
  reopened name r s =
      after_setregset (run openat_no (openat_args name) (run openat_no (openat_args name) s)) r

  set_registers-at :
      (s : H.State) (r : Registers)
      → IsStopped s
      → set_registers H r (at s) ≡ (ok tt, at (after_setregset s r))
  unfolding set_registers
  set_registers-at s r h = ground (arith, setregset s r h)

  pub closed_lem :
      (s : H.State)
      → Ready s
      → (execute_syscall H close_no (1 ∷ []) (at s)
          ≡ (ok ((registers (run close_no (1 ∷ []) s)).regs 0), at (run close_no (1 ∷ []) s)))
        × (execute_syscall H close_no (2 ∷ []) (at (run close_no (1 ∷ []) s))
            ≡ (ok ((registers (closed s)).regs 0), at (closed s)))
        × Ready (closed s)
        × Keeps s (closed s)
  closed_lem s r =
      let (e, r1, k1) = run_lem close_no (1 ∷ []) s refl (omega arith) refl r in
      let (f, r2, k2) =
        run_lem close_no (2 ∷ []) (run close_no (1 ∷ []) s) refl (omega arith) refl r1 in
      (e, f, r2, KeepsMapped-then H c X K N fuel svc V s _ (closed s) k1 k2)

  pub reopened_lem :
      (name : ℕ) (r0 : Registers) (s : H.State)
      → Ready s
      → let u : H.State = run openat_no (openat_args name) s in
        let v : H.State = run openat_no (openat_args name) u in
        (execute_syscall H openat_no (openat_args name) (at s) ≡ (ok ((registers u).regs 0), at u))
        × (execute_syscall H openat_no (openat_args name) (at u)
            ≡ (ok ((registers v).regs 0), at v))
        × (set_registers H r0 (at v) ≡ (ok tt, at (reopened name r0 s)))
        × IsStopped (reopened name r0 s)
        × (registers (reopened name r0 s) ≡ r0)
        × Keeps s (reopened name r0 s)
  reopened_lem name r0 s r =
      let u : H.State = run openat_no (openat_args name) s in
      let v : H.State = run openat_no (openat_args name) u in
      let (e, r1, k1) = run_lem openat_no (openat_args name) s refl (omega arith) refl r in
      let (f, r2, k2) = run_lem openat_no (openat_args name) u refl (omega arith) refl r1 in
      (
        e,
        f,
        set_registers-at v r0 r2.stopped,
        setregset-IsStopped v r0 r2.stopped,
        registers-setregset v r0 r2.stopped,
        KeepsMapped-then H c X K N fuel svc V s v (reopened name r0 s)
            (KeepsMapped-then H c X K N fuel svc V s u v k1 k2)
            (λ b m.
              (N.setregset-IsMapped v r0 b r2.stopped m, X.byte_at-setregset v r0 b r2.stopped)),
      )
