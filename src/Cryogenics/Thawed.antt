-- ===== src/Cryogenics/Thawed.antt =====
-- proctool/cryogenics.rs: what a thawed child has of the frozen process.
use process_magic.Prelude.{ℕ, ◌+◌, ◌≤◌, ◌<◌, ◌≡◌, refl, ◌∙◌, arith, true, List, [], ◌∷◌, ok, All}
use process_magic.Text.{codes}
use process_magic.Host.{Host, Registers}
use process_magic.Host.Action.{◌>>◌}
use process_magic.Host.Machine.{TraceeMachine}
use process_magic.Host.Mapping.{outside, apart, MemoryCalls}
use process_magic.Myprocfs.{MemoryMap}
use process_magic.Terminals.{clear_terminal}
use process_magic.Pcontroller.{
  ProcessController, Session, Method, os, set_registers, detach, wait_pid,
}
use process_magic.Pcontroller.Regions.{map_svc_region, map_and_fill_region}
use process_magic.Pcontroller.Regions.Written.{IsRestorable, HasBytes}
use process_magic.Pcontroller.Regions.Restored.{restored, map_and_fill_region-HasBytes}
use process_magic.Cryogenics.{ProcessState, restore_maps, saved_registers, thaw_with}

-- No two of the maps have a byte in common.
abbrev pub IsApart : List MemoryMap → Type 0
IsApart [] = Unit
IsApart (m ∷ maps) =
    All (λ k. apart m.base_address m.size k.base_address k.size ≡ true) maps × IsApart maps

-- The byte is of none of the maps.
abbrev pub OutsideAll : List MemoryMap → ℕ → Type 0
OutsideAll maps b = All (λ k. outside k.base_address k.size b ≡ true) maps

outside-OutsideAll :
    (a n b : ℕ) (maps : List MemoryMap)
    → All (λ k. apart a n k.base_address k.size ≡ true) maps
    → a ≤ b
    → b < a + n
    → OutsideAll maps b
outside-OutsideAll a n b [] h lo hi = tt
outside-OutsideAll a n b (k ∷ maps) (hk, h) lo hi =
    (ground (arith, hk), outside-OutsideAll a n b maps h lo hi)

module _ (H : Host) (c : ProcessController) (X : TraceeMachine H c.pid) (K : MemoryCalls H c.pid X)
    (fuel : 0 < H.fuel) (svc : ℕ) where
  open X use {tracee, memory}
  open tracee use {IsStopped, registers}
  open memory use {byte_at}
  open K use {HasSvc}

  abbrev at : H.State → Session H.State
  at s = record { controller = c; os = s }

  restore_maps-step :
      (m : MemoryMap) (maps : List MemoryMap) (s t : H.State)
      → map_and_fill_region H svc m (at s) ≡ (ok tt, at t)
      → restore_maps H svc (m ∷ maps) (at s) ≡ restore_maps H svc maps (at t)
  unfolding restore_maps
  restore_maps-step m maps s t e = ground (arith, e)

  -- What the loop over the maps has done
  abbrev Thawed : List MemoryMap → H.State → H.State → Type 0
  Thawed maps s t =
      (restore_maps H svc maps (at s) ≡ (ok tt, at t))
      × IsStopped t
      × All (HasBytes H c X K t) maps
      × ((b : ℕ) → OutsideAll maps b → byte_at t b ≡ byte_at s b)

  restore_maps-Thawed :
      (maps : List MemoryMap) (s : H.State)
      → All (IsRestorable svc) maps
      → IsApart maps
      → IsStopped s
      → HasSvc s svc
      → (t : H.State) × Thawed maps s t
  restore_maps-Thawed [] s r d h i = (s, (unfold restore_maps in refl, h, tt, λ b _. refl))
  restore_maps-Thawed (m ∷ maps) s (rm, r) (dm, d) h i =
      let (e, g, bytes) = map_and_fill_region-HasBytes H c X K fuel svc m rm s h i in
      let s1 : H.State = restored H c X K fuel svc m rm s in
      let (t, (done, stopped, rest, kept)) = restore_maps-Thawed maps s1 r d g.0 g.1 in
      (
        t,
        (
          restore_maps-step m maps s s1 e ∙ done,
          stopped,
          (
            λ j lt.
                kept (m.base_address + j) (
                  outside-OutsideAll m.base_address m.size (m.base_address + j) maps dm
                    (omega arith) (omega (arith, rm.2, lt)))
                ∙ bytes j lt,
            rest,
          ),
          λ b o. kept b o.1 ∙ g.2 b o.0,
        ),
      )

  open tracee use {after_setregset, setregset, registers-setregset, setregset-IsStopped}

  HasBytes-setregset :
      (maps : List MemoryMap) (s : H.State) (r : Registers)
      → IsStopped s
      → All (HasBytes H c X K s) maps
      → All (HasBytes H c X K (after_setregset s r)) maps
  HasBytes-setregset [] s r h b = tt
  HasBytes-setregset (m ∷ maps) s r h (bm, b) = (
    λ i lt. X.byte_at-setregset s r (m.base_address + i) h ∙ bm i lt,
    HasBytes-setregset maps s r h b,
  )

  set_registers-at :
      (s : H.State) (r : Registers)
      → IsStopped s
      → set_registers H r (at s) ≡ (ok tt, at (after_setregset s r))
  unfolding set_registers
  set_registers-at s r h = ground (arith, setregset s r h)

  -- what thaw does when the child is ready
  unfoldable pub let_go : Method H (Unit {0})
  let_go = do os H (clear_terminal H (codes "/dev/tty")); detach H; wait_pid H

  -- If the child has a page with svc instructions and is stopped, and the maps of the state are
  -- whole pages of the user's address space, apart from the instruction and from one another,
  -- thaw goes on to let the child go in a state in which the child is stopped, has exactly the
  -- registers of the frozen process and has the bytes of every map at its place.
  pub thaw_with-HasBytes :
      (state : ProcessState) (start : Session H.State) (s : H.State)
      → map_svc_region H start ≡ (ok svc, at s)
      → IsStopped s
      → HasSvc s svc
      → All (IsRestorable svc) state.memory_maps
      → IsApart state.memory_maps
      → (t : H.State) × (thaw_with H state start ≡ let_go (at t))
        × IsStopped t
        × (registers t ≡ saved_registers H state)
        × All (HasBytes H c X K t) state.memory_maps
  unfolding thaw_with let_go
  thaw_with-HasBytes state start s e h i r d =
      let (u, (done, stopped, bytes, kept)) = restore_maps-Thawed state.memory_maps s r d h i in
      let saved : Registers = saved_registers H state in
      (
        after_setregset u saved,
        ground (arith, e, done, set_registers-at u saved stopped),
        setregset-IsStopped u saved stopped,
        registers-setregset u saved stopped,
        HasBytes-setregset state.memory_maps u saved stopped bytes,
      )
