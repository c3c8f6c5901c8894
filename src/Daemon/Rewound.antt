-- ===== src/Daemon/Rewound.antt =====
-- proctool/bin/daemon.rs: what a process is about to run when a rewind executes its program again.
pub mod Arguments
pub mod Vectors
use mathlib.Core.Path.{subst}
use process_magic.Prelude.{
  ℕ, ◌+◌, ◌*◌, ◌<◌, ◌≡◌, refl, sym, ap, ◌∙◌, arith, List, [], ◌∷◌, ok, length, get_or, All,
}
use process_magic.Int.{ℤ}
use process_magic.Text.{Text}
use process_magic.Words.Bytes.{IsByte}
use process_magic.Host.{Host}
use process_magic.Host.Action.{◌>>=◌, ◌>>◌}
use process_magic.Host.Machine.{TraceeMachine}
use process_magic.Host.Mapping.{MemoryCalls}
use process_magic.Host.Mapping.New.{NewMemory}
use process_magic.Myprocfs.Files.{get_command_line}
use process_magic.Terminals.{get_terminal, clear_terminal}
use process_magic.Pcontroller.{
  ProcessController, Session, Method, os, attach, ensure_not_in_syscall, get_registers, detach,
}
use process_magic.Pcontroller.Syscalls.{get_memory_maps, execute_syscall}
use process_magic.Pcontroller.Regions.{u64s_bytes, inject_u64s}
use process_magic.Pcontroller.Regions.Injected.{length-u64s_bytes, u64s_bytes-IsByte}
use process_magic.Pcontroller.Regions.Injecting.{
  Vdso, IsReady, addr, injected, inject_bytes-at, injected-IsReady, injected-IsInjected,
}
use process_magic.Pcontroller.Execve.{
  IsExecuting, executing, executing-IsExecuting, inject_bytes-cached, prepare_execve,
}
use process_magic.Daemon.{inject_all, rewind_with}
use process_magic.Daemon.Rewound.Vectors.{
  zero-IsByte, array, listed, no_variables, complete, listed-IsReady, complete-IsReady,
  inject_u64s-at, complete-HoldsAt,
}
use process_magic.Daemon.Rewound.Arguments.{
  HoldsAt, HoldsAt-kept, KeepsMapped, KeepsMapped-then, AllHoldAt, AllHoldAt-kept, IsInjectable,
  inject_all-AllHoldAt, length-addrs,
}

-- The calls of a rewind up to the reading of the command line.
unfoldable pub prepare_rewind : (H : Host) → ℤ → Method H (List (List ℕ))
prepare_rewind H pid = do
  attach H
  ensure_not_in_syscall H
  pts ← os H (get_terminal H pid)
  os H (clear_terminal H pts)
  os H (get_command_line H pid)

-- How the process is let go
unfoldable pub execute : (H : Host) → Method H (Unit {0})
execute H = do ensure_not_in_syscall H; registers ← get_registers H; detach H

inject_all-cached :
    (H : Host) (first : List ℕ) (args : List (List ℕ)) (s t : Session H.State) (svc : ℕ)
    (V : Vdso H t.controller svc)
    → get_memory_maps H s ≡ (ok V.maps, t)
    → inject_all H (first ∷ args) s ≡ inject_all H (first ∷ args) t
unfolding inject_all
inject_all-cached H first args s t svc V e = ground (arith, inject_bytes-cached H first s t svc V e)

module _ (H : Host) (c : ProcessController) (X : TraceeMachine H c.pid) (K : MemoryCalls H c.pid X)
    (N : NewMemory H c.pid X K) (fuel : 0 < H.fuel) (svc : ℕ) (V : Vdso H c svc) where
  open X use {tracee, memory}
  open tracee use {IsStopped, registers, after_setregset}
  open memory use {byte_at}
  open N use {IsMapped, HasRoom}

  abbrev at : H.State → Session H.State
  at s = record { controller = c; os = s }

  -- What the process is to run: execve of the name at `path`, with the addresses of the arguments at
  -- `argv`, each argument at its address, and an empty environment.
  abbrev pub IsRewound : List (List ℕ) → ℕ → ℕ → ℕ → List ℕ → H.State → Type 0
  IsRewound args path argv envp addrs t =
      IsExecuting H c X svc path argv envp t
      × AllHoldAt H c X K N fuel svc V t args (path ∷ addrs)
      × HoldsAt H c X K N fuel svc V t (u64s_bytes (path ∷ addrs)) argv
      × HoldsAt H c X K N fuel svc V t (0 ∷ []) envp

  abbrev pub Rewinds : ℤ → List (List ℕ) → Session H.State → H.State → Type 0
  Rewinds pid args s0 s =
      (path : ℕ) × (argv : ℕ) × (envp : ℕ) × (addrs : List ℕ) × (t : H.State) × (rewind_with H pid
          s0
        ≡ execute H (at t))
      × IsRewound args path argv envp addrs t
      × KeepsMapped H c X K N fuel svc V s t

  setregset-KeepsMapped :
      (path argv envp : ℕ) (s : H.State)
      → IsStopped s
      → KeepsMapped H c X K N fuel svc V s (executing H c X svc path argv envp s)
  setregset-KeepsMapped path argv envp s h b m =
      (N.setregset-IsMapped s _ b h m, X.byte_at-setregset s _ b h)

  -- behind the arguments, whose addresses are known
  rewinds :
      (pid : ℤ) (args : List (List ℕ)) (s0 s1 : Session H.State) (s u : H.State) (path : ℕ)
      (addrs : List ℕ)
      → prepare_rewind H pid s0 ≡ (ok args, s1)
      → inject_all H args s1 ≡ (ok (path ∷ addrs), at u)
      → IsReady H c X K N fuel svc V u
      → AllHoldAt H c X K N fuel svc V u args (path ∷ addrs)
      → KeepsMapped H c X K N fuel svc V s u
      → HasRoom (length (u64s_bytes (path ∷ addrs)))
      → HasRoom 1
      → Rewinds pid args s0 s
  unfolding rewind_with prepare_rewind execute execute_syscall
  rewinds pid args s0 s1 s u path addrs prepared all r hold kept room one =
      let w : H.State = complete H c X K N fuel svc V (path ∷ addrs) room one u r in
      let a : ℕ = array H c X K N fuel svc V (path ∷ addrs) room one u r in
      let z : ℕ = no_variables H c X K N fuel svc V (path ∷ addrs) room one u r in
      let ready : IsReady H c X K N fuel svc V w =
        complete-IsReady H c X K N fuel svc V (path ∷ addrs) room one u r in
      let t : H.State = executing H c X svc path a z w in
      let (vector, zeroed, still) =
        complete-HoldsAt H c X K N fuel svc V (path ∷ addrs) room one u r in
      let last : KeepsMapped H c X K N fuel svc V w t =
        setregset-KeepsMapped path a z w ready.stopped in
      (
        path,
        a,
        z,
        addrs,
        t,
        ground (
          arith,
          prepared,
          all,
          inject_u64s-at H c X K N fuel svc V (path ∷ addrs) room one u r,
          inject_bytes-at H c X K N fuel svc V (0 ∷ []) one zero-IsByte
              (listed H c X K N fuel svc V (path ∷ addrs) room one u r)
              (listed-IsReady H c X K N fuel svc V (path ∷ addrs) room one u r),
          prepare_execve H c X svc K N fuel V path a z w ready,
        ),
        (
          executing-IsExecuting H c X svc path a z w ready.stopped,
          AllHoldAt-kept H c X K N fuel svc V w t args (path ∷ addrs)
              (AllHoldAt-kept H c X K N fuel svc V u w args (path ∷ addrs) hold still) last,
          HoldsAt-kept H c X K N fuel svc V w t (u64s_bytes (path ∷ addrs)) a vector last,
          HoldsAt-kept H c X K N fuel svc V w t (0 ∷ []) z zeroed last,
        ),
        KeepsMapped-then H c X K N fuel svc V s w t
            (KeepsMapped-then H c X K N fuel svc V s u w kept still) last,
      )

  -- If the calls of a rewind up to the reading of the command line end well and give at least one
  -- argument, the maps can be read, the tracee is then stopped with an svc instruction in its
  -- [vdso], and the machine has room for each argument, for their addresses and for one byte
  -- more: the rewind goes on to run execve in a state in which x0 has the address of the first
  -- argument, the list of the addresses of all arguments stands in their order at the address in
  -- x1, each argument has its bytes at its address, a zero stands at the address in x2, and no
  -- byte of the memory that was mapped before has changed.
  pub rewind_with-IsRewound :
      (pid : ℤ) (first : List ℕ) (args : List (List ℕ)) (s0 s1 : Session H.State) (s : H.State)
      → prepare_rewind H pid s0 ≡ (ok (first ∷ args), s1)
      → get_memory_maps H s1 ≡ (ok V.maps, at s)
      → IsReady H c X K N fuel svc V s
      → All (IsInjectable H c X K N fuel svc V) (first ∷ args)
      → HasRoom (8 * length (first ∷ args))
      → HasRoom 1
      → Rewinds pid (first ∷ args) s0 s
  rewind_with-IsRewound pid first args s0 s1 s prepared cached r injectable room one =
      let (addrs, u, e, ready, hold, kept) =
        inject_all-AllHoldAt H c X K N fuel svc V (first ∷ args) s injectable r in
      by_addrs addrs u (inject_all-cached H first args s1 (at s) svc V cached ∙ e) ready hold kept
    where
      by_addrs :
          (addrs : List ℕ) (u : H.State)
          → inject_all H (first ∷ args) s1 ≡ (ok addrs, at u)
          → IsReady H c X K N fuel svc V u
          → AllHoldAt H c X K N fuel svc V u (first ∷ args) addrs
          → KeepsMapped H c X K N fuel svc V s u
          → Rewinds pid (first ∷ args) s0 s
      by_addrs [] u e ready hold kept = absurd hold
      by_addrs (path ∷ addrs) u e ready hold kept =
          let n : length (path ∷ addrs) ≡ length (first ∷ args) =
            length-addrs H c X K N fuel svc V u (first ∷ args) (path ∷ addrs) hold in
          let size : length (u64s_bytes (path ∷ addrs)) ≡ 8 * length (first ∷ args) =
            length-u64s_bytes (path ∷ addrs) ∙ ap (λ k. 8 * k) n in
          rewinds pid (first ∷ args) s0 s1 s u path addrs prepared e ready hold kept
            (subst HasRoom (sym size) room) one
