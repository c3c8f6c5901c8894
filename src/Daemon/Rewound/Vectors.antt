-- ===== src/Daemon/Rewound/Vectors.antt =====
-- proctool/bin/daemon.rs: the array of the arguments' addresses, and the empty environment, that a
-- rewind injects behind the arguments.
use process_magic.Prelude.{ℕ, ◌<◌, ◌≡◌, arith, List, [], ◌∷◌, ok, length, All}
use process_magic.Words.Bytes.{IsByte}
use process_magic.Host.{Host}
use process_magic.Host.Machine.{TraceeMachine}
use process_magic.Host.Mapping.{MemoryCalls}
use process_magic.Host.Mapping.New.{NewMemory}
use process_magic.Pcontroller.{ProcessController, Session}
use process_magic.Pcontroller.Regions.{u64s_bytes, inject_u64s}
use process_magic.Pcontroller.Regions.Injected.{u64s_bytes-IsByte}
use process_magic.Pcontroller.Regions.Injecting.{
  Vdso, IsReady, addr, injected, inject_bytes-at, injected-IsReady, injected-IsInjected,
}
use process_magic.Daemon.Rewound.Arguments.{HoldsAt, HoldsAt-kept, KeepsMapped, KeepsMapped-then}

pub zero-IsByte : All IsByte (0 ∷ [])
zero-IsByte = (omega arith, tt)

module _ (H : Host) (c : ProcessController) (X : TraceeMachine H c.pid) (K : MemoryCalls H c.pid X)
    (N : NewMemory H c.pid X K) (fuel : 0 < H.fuel) (svc : ℕ) (V : Vdso H c svc) where
  open X use {tracee, memory}
  open tracee use {IsStopped, registers, after_setregset}
  open memory use {byte_at}
  open N use {IsMapped, HasRoom}

  abbrev at : H.State → Session H.State
  at s = record { controller = c; os = s }

  -- behind the injection of the arguments
  module _ (addrs : List ℕ) (room : HasRoom (length (u64s_bytes addrs))) (one : HasRoom 1)
      (s : H.State) (r : IsReady H c X K N fuel svc V s) where
    abbrev pub array : ℕ
    array = addr H c X K N fuel svc V (u64s_bytes addrs) room (u64s_bytes-IsByte addrs) s

    abbrev pub listed : H.State
    listed = injected H c X K N fuel svc V (u64s_bytes addrs) room (u64s_bytes-IsByte addrs) s

    abbrev pub no_variables : ℕ
    no_variables = addr H c X K N fuel svc V (0 ∷ []) one zero-IsByte listed

    abbrev pub complete : H.State
    complete = injected H c X K N fuel svc V (0 ∷ []) one zero-IsByte listed

    pub listed-IsReady : IsReady H c X K N fuel svc V listed
    listed-IsReady =
        injected-IsReady H c X K N fuel svc V (u64s_bytes addrs) room (u64s_bytes-IsByte addrs) s r

    pub complete-IsReady : IsReady H c X K N fuel svc V complete
    complete-IsReady =
        injected-IsReady H c X K N fuel svc V (0 ∷ []) one zero-IsByte listed listed-IsReady

    pub inject_u64s-at : inject_u64s H addrs (at s) ≡ (ok array, at listed)
    unfolding inject_u64s
    inject_u64s-at =
        inject_bytes-at H c X K N fuel svc V (u64s_bytes addrs) room (u64s_bytes-IsByte addrs) s r

    -- what the process finds at the two addresses
    pub complete-HoldsAt :
        HoldsAt H c X K N fuel svc V complete (u64s_bytes addrs) array
        × HoldsAt H c X K N fuel svc V complete (0 ∷ []) no_variables
        × KeepsMapped H c X K N fuel svc V s complete
    complete-HoldsAt =
        let (there, kept) =
          injected-IsInjected H c X K N fuel svc V (u64s_bytes addrs) room (u64s_bytes-IsByte addrs)
            s r in
        let (zeroed, still) =
          injected-IsInjected H c X K N fuel svc V (0 ∷ []) one zero-IsByte listed listed-IsReady in
        (
          HoldsAt-kept H c X K N fuel svc V listed complete (u64s_bytes addrs) array there still,
          zeroed,
          KeepsMapped-then H c X K N fuel svc V s listed complete kept still,
        )
