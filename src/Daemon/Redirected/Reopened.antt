-- ===== src/Daemon/Redirected/Reopened.antt =====
-- proctool/bin/daemon.rs: a redirect to a terminal.
use process_magic.Prelude.{
  ℕ, ◌<◌, ◌≡◌, refl, arith, List, [], ◌∷◌, IsReturned, Result, ok, err, panic, unfinished, length,
  All,
}
use process_magic.Text.{Text}
use process_magic.Utf8.Encoded.{IsScalar}
use process_magic.Host.{Host, Call, Registers, close_no, open_fd, write, write_only}
use process_magic.Host.Action.{ignore_err}
use process_magic.Host.Machine.{TraceeMachine}
use process_magic.Host.Mapping.{MemoryCalls}
use process_magic.Host.Mapping.New.{NewMemory, QuietCalls}
use process_magic.Terminals.{normalize_tty, clear_terminal}
use process_magic.Terminals.Cleared.{IsCalm, clear_terminal-IsCalm}
use process_magic.Pcontroller.{ProcessController, Session, os, attach, get_registers, detach}
use process_magic.Pcontroller.Stdin.{cancel_pending_read}
use process_magic.Pcontroller.Syscalls.{get_memory_maps}
use process_magic.Pcontroller.Regions.Injecting.{
  Vdso, IsReady, addr, injected, inject_bytes-at, injected-IsReady, injected-IsInjected,
}
use process_magic.Pcontroller.Takeover.Prepared.{path_bytes, path_bytes-IsByte}
use process_magic.Daemon.{redirect_with}
use process_magic.Daemon.Rewound.Arguments.{HoldsAt, KeepsMapped, KeepsMapped-then}
use process_magic.Daemon.Redirected.Quiet.{
  execute_syscall-cached, closed, reopened, closed_lem, reopened_lem,
}

module _ (H : Host) (c : ProcessController) (X : TraceeMachine H c.pid) (K : MemoryCalls H c.pid X)
    (N : NewMemory H c.pid X K) (Q : QuietCalls H c.pid X K N) (fuel : 0 < H.fuel) (svc : ℕ)
    (V : Vdso H c svc) where
  open X use {tracee, memory}
  open tracee use {
    IsStopped, registers, after_setregset, setregset, registers-setregset, setregset-IsStopped,
  }
  open N use {IsMapped, HasRoom}

  abbrev at : H.State → Session H.State
  at s = record { controller = c; os = s }

  abbrev Ready : H.State → Type 0
  Ready = IsReady H c X K N fuel svc V

  abbrev Keeps : H.State → H.State → Type 0
  Keeps = KeepsMapped H c X K N fuel svc V

  -- behind the two closes, and behind the two opens
  abbrev pub closed_at : H.State → H.State
  closed_at = closed H c X K N Q fuel svc V

  abbrev pub reopened_at : ℕ → Registers → H.State → H.State
  reopened_at = reopened H c X K N Q fuel svc V

  -- A call of the daemon's own that returns and leaves the tracee as it was.
  abbrev pub LeavesTracee : Call → Type 0
  LeavesTracee q =
      (s : H.State)
      → Ready s
      → IsReturned (H.perform q s).0 × Ready (H.perform q s).1 × Keeps s (H.perform q s).1

  module _ (tty : Text) (scalars : All IsScalar tty) (room : HasRoom (length (path_bytes tty)))
      (opens : (path : Text) → LeavesTracee (open_fd path write_only))
      (writes : (fd : ℕ) (bytes : List ℕ) → LeavesTracee (write fd bytes)) where
    -- behind the clearing of the terminal
    abbrev pub cleared : H.State → H.State
    cleared s = (clear_terminal H tty s).1

    file-IsCalm :
        (s0 : H.State) (q : Call)
        → LeavesTracee q
        → IsCalm (λ s. Ready s × Keeps s0 s) (H.perform q)
    file-IsCalm s0 q leaves = record {
      at = λ s (r, k).
          let (returned, rt, kt) = leaves s r in
          (returned, (rt, KeepsMapped-then H c X K N fuel svc V s0 s (H.perform q s).1 k kt));
    }

    ignored :
        (r : Result (Unit {0})) (t : H.State)
        → IsReturned r
        → (s : Session H.State) → ignore_err (λ (_ : Session H.State). (r, at t)) s ≡ (ok tt, at t)
    ignored (ok a) t h s = refl
    ignored (err e) t h s = refl
    ignored panic t h s = absurd h
    ignored unfinished t h s = absurd h

    clears :
        (s : H.State)
        → Ready s
        → (ignore_err (os H (clear_terminal H tty)) (at s) ≡ (ok tt, at (cleared s)))
          × Ready (cleared s)
          × Keeps s (cleared s)
    clears s r =
        let (returned, (rt, kt)) =
          (clear_terminal-IsCalm H (λ t. Ready t × Keeps s t) tty
              (λ path. file-IsCalm s (open_fd path write_only) (opens path))
              (λ fd bytes. file-IsCalm s (write fd bytes) (writes fd bytes))).at
            s (r, λ b m. (m, refl)) in
        (ignored (clear_terminal H tty s).0 (cleared s) returned (at s), rt, kt)

    -- the name of the terminal in the process, and the state behind its injection
    abbrev pub name : H.State → ℕ
    name s =
        addr H c X K N fuel svc V (path_bytes tty) room (path_bytes-IsByte tty scalars)
          (cleared (closed_at s))

    abbrev pub named : H.State → H.State
    named s =
        injected H c X K N fuel svc V (path_bytes tty) room (path_bytes-IsByte tty scalars)
          (cleared (closed_at s))

    -- If the attach and the cancelling of a read end well, the name of the terminal is accepted,
    -- the maps can be read, the tracee is then stopped with an svc instruction in its [vdso], the
    -- machine has room for the name, and each open and write of the daemon itself returns and
    -- leaves the tracee as it was: a redirect closes the descriptors 1 and 2, puts the name with
    -- a zero behind it into new memory and opens it for writing twice, and then goes on to detach
    -- when the tracee has the registers that it had at the beginning, and every byte that was
    -- mapped is as it was.
    pub redirect_with-reopened :
        (tty_arg : Text) (s0 s1 s2 : Session H.State) (s : H.State) (r0 : Registers)
        → attach H s0 ≡ (ok tt, s1)
        → cancel_pending_read H s1 ≡ (ok tt, s2)
        → get_registers H s2 ≡ (ok r0, s2)
        → get_memory_maps H s2 ≡ (ok V.maps, at s)
        → normalize_tty tty_arg ≡ ok tty
        → Ready s
        → let t : H.State = reopened_at (name s) r0 (named s) in
          (redirect_with H tty_arg s0 ≡ detach H (at t))
          × HoldsAt H c X K N fuel svc V (named s) (path_bytes tty) (name s)
          × IsStopped t
          × (registers t ≡ r0)
          × Keeps s t
    unfolding redirect_with
    redirect_with-reopened tty_arg s0 s1 s2 s r0 attached cancelled read cached accepted r =
        let hb = path_bytes-IsByte tty scalars in
        let x : H.State = cleared (closed_at s) in
        let (close1, close2, rc, kc) = closed_lem H c X K N Q fuel svc V s r in
        let (clear, rx, kx) = clears (closed_at s) rc in
        let (there, kn) = injected-IsInjected H c X K N fuel svc V (path_bytes tty) room hb x rx in
        let rn : Ready (named s) =
          injected-IsReady H c X K N fuel svc V (path_bytes tty) room hb x rx in
        let (open1, open2, back, stopped, regs, kt) =
          reopened_lem H c X K N Q fuel svc V (name s) r0 (named s) rn in
        (
          ground (
            arith,
            attached,
            cancelled,
            read,
            execute_syscall-cached H close_no (1 ∷ []) s2 (at s) svc V cached,
            close1,
            close2,
            accepted,
            clear,
            inject_bytes-at H c X K N fuel svc V (path_bytes tty) room hb x rx,
            open1,
            open2,
            back,
          ),
          there,
          stopped,
          regs,
          KeepsMapped-then H c X K N fuel svc V s (named s) (reopened_at (name s) r0 (named s))
              (KeepsMapped-then H c X K N fuel svc V s x (named s)
                (KeepsMapped-then H c X K N fuel svc V s (closed_at s) x kc kx) kn)
              kt,
        )
