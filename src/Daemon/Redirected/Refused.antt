-- ===== src/Daemon/Redirected/Refused.antt =====
-- proctool/bin/daemon.rs: a redirect to what is no terminal.
use process_magic.Prelude.{ℕ, ◌<◌, ◌≡◌, arith, false, [], ◌∷◌, none, message, text, ok, err}
use process_magic.Int.{ℤ}
use process_magic.Text.{Text, codes, starts_with}
use process_magic.Host.{Host, Registers, close_no, ptrace_detach}
use process_magic.Host.Machine.{TraceeMachine}
use process_magic.Host.Mapping.{MemoryCalls}
use process_magic.Host.Mapping.New.{NewMemory, QuietCalls}
use process_magic.Terminals.{normalize_tty}
use process_magic.Pcontroller.{
  ProcessController, Session, new, attach, get_registers, detach, drop_controller, with_controller,
}
use process_magic.Pcontroller.Stdin.{cancel_pending_read}
use process_magic.Pcontroller.Syscalls.{get_memory_maps}
use process_magic.Pcontroller.Keeping.{IsOwner}
use process_magic.Pcontroller.Regions.Injecting.{Vdso, IsReady}
use process_magic.Daemon.{redirect_with, run_redirect}
use process_magic.Daemon.Rewound.Arguments.{KeepsMapped}
use process_magic.Daemon.Redirected.Quiet.{execute_syscall-cached, closed, closed_lem}

module _ (H : Host) (c : ProcessController) (X : TraceeMachine H c.pid) (K : MemoryCalls H c.pid X)
    (N : NewMemory H c.pid X K) (Q : QuietCalls H c.pid X K N) (fuel : 0 < H.fuel) (svc : ℕ)
    (V : Vdso H c svc) where
  abbrev at : H.State → Session H.State
  at s = record { controller = c; os = s }

  -- behind the two closes
  abbrev pub closed_at : H.State → H.State
  closed_at = closed H c X K N Q fuel svc V

  -- the state behind the detach of the controller that is dropped
  abbrev pub let_go : ℤ → H.State → H.State
  let_go pid t = (H.perform (ptrace_detach pid none) t).1

  -- If the attach and the cancelling of a read end well, the maps can be read, the tracee is then
  -- stopped with an svc instruction in its [vdso] and held by a controller that detaches when it
  -- is dropped, and the name begins with neither /dev/pts/ nor pts/: a redirect makes the process
  -- close the descriptors 1 and 2, and only then fails, with the error that names the terminal;
  -- the process is let go from the state behind the second close, without its registers being put
  -- back, and every byte that was mapped is as it was.
  pub run_redirect-refused :
      (pid : ℤ) (tty : Text) (o : H.State) (s1 s2 : Session H.State) (s : H.State) (r0 : Registers)
      → attach H (record { controller = new pid; os = o }) ≡ (ok tt, s1)
      → cancel_pending_read H s1 ≡ (ok tt, s2)
      → get_registers H s2 ≡ (ok r0, s2)
      → get_memory_maps H s2 ≡ (ok V.maps, at s)
      → starts_with tty (codes "/dev/pts/") ≡ false
      → starts_with tty (codes "pts/") ≡ false
      → IsOwner pid (at s)
      → IsReady H c X K N fuel svc V s
      → (run_redirect H pid tty o ≡ (
        err (message "could not interpret {:?} as a TTY identifier" (text tty ∷ [])),
        let_go pid (closed_at s),
      ))
        × IsReady H c X K N fuel svc V (closed_at s)
        × KeepsMapped H c X K N fuel svc V s (closed_at s)
  unfolding run_redirect redirect_with with_controller drop_controller detach normalize_tty
  run_redirect-refused pid tty o s1 s2 s r0 attached cancelled read cached whole short (same, owner)
        r =
      let (close1, close2, rc, kc) = closed_lem H c X K N Q fuel svc V s r in
      (
        ground (
          arith,
          attached,
          cancelled,
          read,
          execute_syscall-cached H close_no (1 ∷ []) s2 (at s) svc V cached,
          close1,
          close2,
          whole,
          short,
          same,
          owner,
        ),
        rc,
        kc,
      )
