-- ===== src/Daemon/Rewound/Arguments.antt =====
-- proctool/bin/daemon.rs: the arguments that a rewind injects, one after the other.
use process_magic.Prelude.{
  ℕ, suc, ◌+◌, ◌<◌, ◌≡◌, refl, ap, ◌∙◌, arith, List, [], ◌∷◌, ok, length, get_or, All,
}
use process_magic.Words.Bytes.{IsByte}
use process_magic.Host.{Host}
use process_magic.Host.Machine.{TraceeMachine}
use process_magic.Host.Mapping.{MemoryCalls}
use process_magic.Host.Mapping.New.{NewMemory}
use process_magic.Pcontroller.{ProcessController, Session}
use process_magic.Pcontroller.Regions.Injecting.{
  Vdso, IsReady, addr, injected, inject_bytes-at, injected-IsReady, injected-IsInjected,
}
use process_magic.Daemon.{inject_all}

module _ (H : Host) (c : ProcessController) (X : TraceeMachine H c.pid) (K : MemoryCalls H c.pid X)
    (N : NewMemory H c.pid X K) (fuel : 0 < H.fuel) (svc : ℕ) (V : Vdso H c svc) where
  open X use {memory}
  open memory use {byte_at}
  open N use {IsMapped, HasRoom}

  abbrev at : H.State → Session H.State
  at s = record { controller = c; os = s }

  -- The bytes stand at the address, in memory that is mapped.
  abbrev pub HoldsAt : H.State → List ℕ → ℕ → Type 0
  HoldsAt t bytes a =
      (i : ℕ) → i < length bytes → IsMapped t (a + i) × (byte_at t (a + i) ≡ get_or bytes i 0)

  -- What has been mapped is as it was.
  abbrev pub KeepsMapped : H.State → H.State → Type 0
  KeepsMapped s t = (b : ℕ) → IsMapped s b → IsMapped t b × (byte_at t b ≡ byte_at s b)

  pub HoldsAt-kept :
      (s t : H.State) (bytes : List ℕ) (a : ℕ)
      → HoldsAt s bytes a
      → KeepsMapped s t
      → HoldsAt t bytes a
  HoldsAt-kept s t bytes a h k i lt =
      let (mapped, is) = h i lt in let (still, same) = k (a + i) mapped in (still, same ∙ is)

  pub KeepsMapped-then : (s t u : H.State) → KeepsMapped s t → KeepsMapped t u → KeepsMapped s u
  KeepsMapped-then s t u h k b m =
      let (mapped, is) = h b m in let (still, same) = k b mapped in (still, same ∙ is)

  -- Each list of bytes stands at its address.
  abbrev pub AllHoldAt : H.State → List (List ℕ) → List ℕ → Type 0
  AllHoldAt t [] [] = Unit
  AllHoldAt t (bytes ∷ rest) (a ∷ addrs) = HoldsAt t bytes a × AllHoldAt t rest addrs
  AllHoldAt t _ _ = ⊥

  pub AllHoldAt-kept :
      (s t : H.State) (args : List (List ℕ)) (addrs : List ℕ)
      → AllHoldAt s args addrs
      → KeepsMapped s t
      → AllHoldAt t args addrs
  AllHoldAt-kept s t [] [] h k = tt
  AllHoldAt-kept s t [] (a ∷ addrs) h k = absurd h
  AllHoldAt-kept s t (bytes ∷ args) [] h k = absurd h
  AllHoldAt-kept s t (bytes ∷ args) (a ∷ addrs) (h, hs) k =
      (HoldsAt-kept s t bytes a h k, AllHoldAt-kept s t args addrs hs k)

  -- bytes for which the machine has room
  abbrev pub IsInjectable : List ℕ → Type 0
  IsInjectable bytes = HasRoom (length bytes) × All IsByte bytes

  pub inject_all-AllHoldAt :
      (args : List (List ℕ)) (s : H.State)
      → All IsInjectable args
      → IsReady H c X K N fuel svc V s
      → (addrs : List ℕ) × (t : H.State) × (inject_all H args (at s) ≡ (ok addrs, at t))
        × IsReady H c X K N fuel svc V t
        × AllHoldAt t args addrs
        × KeepsMapped s t
  unfolding inject_all
  inject_all-AllHoldAt [] s h r = ([], s, refl, r, tt, λ b m. (m, refl))
  inject_all-AllHoldAt (bytes ∷ args) s ((room, hb), h) r =
      let a : ℕ = addr H c X K N fuel svc V bytes room hb s in
      let u : H.State = injected H c X K N fuel svc V bytes room hb s in
      let (there, kept) = injected-IsInjected H c X K N fuel svc V bytes room hb s r in
      let (addrs, t, e, ready, hold, still) =
        inject_all-AllHoldAt args u h (injected-IsReady H c X K N fuel svc V bytes room hb s r) in
      (
        a ∷ addrs,
        t,
        ground (arith, inject_bytes-at H c X K N fuel svc V bytes room hb s r, e),
        ready,
        (HoldsAt-kept u t bytes a there still, hold),
        KeepsMapped-then s u t kept still,
      )

  pub length-addrs :
      (t : H.State) (args : List (List ℕ)) (addrs : List ℕ)
      → AllHoldAt t args addrs
      → length addrs ≡ length args
  length-addrs t [] [] h = refl
  length-addrs t [] (a ∷ addrs) h = absurd h
  length-addrs t (bytes ∷ args) [] h = absurd h
  length-addrs t (bytes ∷ args) (a ∷ addrs) h = ap suc (length-addrs t args addrs h.1)
