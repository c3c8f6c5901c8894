-- ===== src/Spawn/Unmapped.antt =====
-- teleserver/spawn.rs: which maps `unmap_existing_memory` takes away.
use process_magic.Prelude.{
  ℕ, ◌+◌, ◌^◌, ◌<◌, ◌≡◌, refl, ap, ◌∙◌, fun_ext, Bool, true, false, ◌&&◌, ◌||◌, List, [], ◌∷◌, All,
  arith, ok, ltb, leb, ◌==◌, if◌then◌else◌, Bool-cases, inl, inr,
}
use process_magic.Int.{ℤ}
use process_magic.Words.{add_u64_fits}
use process_magic.Host.{Host}
use process_magic.Host.Action.{Action, pure, ignore_err, ◌>>◌}
use process_magic.Myprocfs.{MemoryMap}
use process_magic.Spawn.{holds_pc, unmap_one, unmap_maps}

-- The address lies in the map.
abbrev pub contains : MemoryMap → ℕ → Bool
contains m a = leb m.base_address a && ltb a (m.base_address + m.size)

-- A map that stays: the one that is being executed, and one of the size of a huge page.
abbrev pub stays : ℕ → MemoryMap → Bool
stays pc m = contains m pc || (m.size == 2097152)

abbrev pub removable : ℕ → List MemoryMap → List MemoryMap
removable pc [] = []
removable pc (m ∷ maps) = if stays pc m then removable pc maps else m ∷ removable pc maps

removable-lacks :
    (pc : ℕ) (maps : List MemoryMap) → All (λ m. contains m pc ≡ false) (removable pc maps)
removable-lacks pc [] = tt
removable-lacks pc (m ∷ maps) = elim (Bool-cases (stays pc m)) [
  | inl kept ↦ rw kept (removable-lacks pc maps)
  | inr gone ↦ rw gone (ground (arith, gone), removable-lacks pc maps)
]

module _ (H : Host) (pid : ℤ) where
  -- Each map is tried, whether or not one before it could be unmapped.
  unfoldable pub unmap_each : List MemoryMap → Action H.State (Unit {0})
  unmap_each [] = pure tt
  unmap_each (m ∷ maps) = ignore_err (unmap_one H pid m) >> unmap_each maps

  holds_pc_lem :
      (pc : ℕ) (m : MemoryMap)
      → m.base_address + m.size < 2 ^ 64
      → holds_pc H pc m ≡ ok (contains m pc)
  unfolding holds_pc
  holds_pc_lem pc m h = ground (arith, add_u64_fits H.profile m.base_address m.size h)

  -- one map that stays, and one that goes
  unmap_maps-stays :
      (pc : ℕ) (m : MemoryMap) (maps : List MemoryMap) (s : H.State)
      → m.base_address + m.size < 2 ^ 64
      → stays pc m ≡ true
      → unmap_maps H pid pc (m ∷ maps) s ≡ unmap_maps H pid pc maps s
  unfolding unmap_maps
  unmap_maps-stays pc m maps s hm kept = ground (arith, holds_pc_lem pc m hm, kept)

  unmap_maps_goes :
      (pc : ℕ) (m : MemoryMap) (maps : List MemoryMap) (s : H.State)
      → m.base_address + m.size < 2 ^ 64
      → stays pc m ≡ false
      → unmap_maps H pid pc (m ∷ maps) s
        ≡ (ignore_err (unmap_one H pid m) >> unmap_maps H pid pc maps) s
  unfolding unmap_maps
  unmap_maps_goes pc m maps s hm gone = ground (arith, holds_pc_lem pc m hm, gone)

  unmap_maps-unmap_each :
      (pc : ℕ) (maps : List MemoryMap) (s : H.State)
      → All (λ m. m.base_address + m.size < 2 ^ 64) maps
      → unmap_maps H pid pc maps s ≡ unmap_each (removable pc maps) s
  unfolding unmap_each
  unmap_maps-unmap_each pc [] s h = unfold unmap_maps in refl
  unmap_maps-unmap_each pc (m ∷ maps) s (hm, h) = elim (Bool-cases (stays pc m)) [
    | inl kept ↦ rw kept (unmap_maps-stays pc m maps s hm kept ∙ unmap_maps-unmap_each pc maps s h)
    | inr gone ↦ rw gone (
        unmap_maps_goes pc m maps s hm gone
        ∙ ap (λ k. (ignore_err (unmap_one H pid m) >> k) s)
            (fun_ext (λ t. unmap_maps-unmap_each pc maps t h)))
  ]

  -- If no map runs past 2^64, the loop of unmap_existing_memory tries to unmap, in order, exactly
  -- the maps that neither hold the program counter nor have 2097152 bytes, each whether or not
  -- the one before could be unmapped; no map that holds the program counter is among them.
  pub unmap_maps_spares_pc :
      (pc : ℕ) (maps : List MemoryMap) (s : H.State)
      → All (λ m. m.base_address + m.size < 2 ^ 64) maps
      → (unmap_maps H pid pc maps s ≡ unmap_each (removable pc maps) s)
        × All (λ m. contains m pc ≡ false) (removable pc maps)
  unmap_maps_spares_pc pc maps s h = (unmap_maps-unmap_each pc maps s h, removable-lacks pc maps)
