-- ===== src/Pcontroller/Regions/Written.antt =====
-- proctool/pcontroller.rs: the part of `map_and_fill_region` that writes the data of a map.
use mathlib.Core.Path.{subst}
use process_magic.Prelude.{
  ℕ, ◌+◌, ◌-◌, ◌≤◌, ◌<◌, ◌≡◌, refl, sym, ap, ◌∙◌, Bool, true, false, ◌&&◌, arith, ok, All, length,
  get_or, ltb, leb, if◌then◌else◌, Bool-cases, inl, inr,
}
use process_magic.Words.Bytes.{IsByte}
use process_magic.Host.{Host}
use process_magic.Host.Machine.{TraceeMachine}
use process_magic.Host.Mapping.{IsRegion, outside, apart, MemoryCalls}
use process_magic.Myprocfs.{MemoryMap}
use process_magic.Pcontroller.{ProcessController, Session}
use process_magic.Pcontroller.Regions.{fill_region}

-- A map that can be put back beside the instruction at `svc`.
abbrev pub IsRestorable : ℕ → MemoryMap → Type 0
IsRestorable svc m =
    IsRegion m.base_address m.size
    × (apart m.base_address m.size svc 4 ≡ true)
    × (length m.bytes ≤ m.size)
    × All IsByte m.bytes

module _ (H : Host) (c : ProcessController) (X : TraceeMachine H c.pid)
    (K : MemoryCalls H c.pid X) where
  open X use {tracee, memory}
  open tracee use {IsStopped}
  open memory use {byte_at}
  open K use {HasSvc, IsWritable, after_write, write}

  abbrev at : H.State → Session H.State
  at s = record { controller = c; os = s }

  -- What one map's restoring is to do: its bytes are there, and none but the region's have changed.
  abbrev pub HasBytes : H.State → MemoryMap → Type 0
  HasBytes s m = (i : ℕ) → i < length m.bytes → byte_at s (m.base_address + i) ≡ get_or m.bytes i 0

  -- The three ways in which a part of the work goes on from one state to another
  abbrev pub GoesOn : ℕ → ℕ → ℕ → H.State → H.State → Type 0
  GoesOn svc a n s t =
      IsStopped t × HasSvc t svc × ((b : ℕ) → outside a n b ≡ true → byte_at t b ≡ byte_at s b)

  module _ (svc : ℕ) (m : MemoryMap) (r : IsRestorable svc m) where
    abbrev pub filled : H.State → H.State
    filled s = if ltb 0 (length m.bytes) then after_write s m.base_address m.bytes else s

    fill_region-empty :
        (s : H.State) → ltb 0 (length m.bytes) ≡ false → fill_region H m (at s) ≡ (ok tt, at s)
    unfolding fill_region
    fill_region-empty s e = rw e

    fill_region-write :
        (s : H.State)
        → ltb 0 (length m.bytes) ≡ true
        → IsStopped s
        → IsWritable s m.base_address m.size
        → fill_region H m (at s) ≡ (ok tt, at (after_write s m.base_address m.bytes))
    unfolding fill_region
    fill_region-write s e h w = ground (arith, e, write s m.base_address m.size m.bytes h w r.2)

    pub filled_lem :
        (s : H.State)
        → IsStopped s
        → HasSvc s svc
        → IsWritable s m.base_address m.size
        → (fill_region H m (at s) ≡ (ok tt, at (filled s)))
          × GoesOn svc m.base_address m.size s (filled s)
          × HasBytes (filled s) m
    filled_lem s h i w = elim (Bool-cases (ltb 0 (length m.bytes))) [
      | inl e ↦ subst Done (sym (ap by e)) (
        fill_region-write s e h w,
        (
          K.write-IsStopped s m.base_address m.bytes h,
          K.write-HasSvc s m.base_address m.bytes svc i (ground (arith, r.1, r.2)),
          λ b o.
              K.byte_at-write s m.base_address m.size m.bytes b w r.2 r.3 ∙ ground (arith, o, r.2),
        ),
        λ j lt.
            K.byte_at-write s m.base_address m.size m.bytes (m.base_address + j) w r.2 r.3
            ∙ written j lt,
      )
      | inr e ↦
          subst Done (sym (ap by e))
            (fill_region-empty s e, (h, i, λ b _. refl), λ j lt. absurd (ground (arith, e)))
    ]
      where
        by : Bool → H.State
        by e = if e then after_write s m.base_address m.bytes else s

        Done : H.State → Type 0
        Done t =
            (fill_region H m (at s) ≡ (ok tt, at t))
            × GoesOn svc m.base_address m.size s t
            × HasBytes t m

        written :
            (j : ℕ)
            → j < length m.bytes
            → (if leb m.base_address (m.base_address + j)
                  && ltb (m.base_address + j) (m.base_address + length m.bytes)
                then get_or m.bytes (m.base_address + j - m.base_address) 0
                else byte_at s (m.base_address + j))
              ≡ get_or m.bytes j 0
        written j lt =
            let back : m.base_address + j - m.base_address ≡ j = omega arith in
            ground (arith, lt, ap (λ t. get_or m.bytes t 0) back)
