-- ===== src/Pcontroller/Regions/Placement.antt =====
-- proctool/pcontroller.rs: where the region of `map_svc_region` goes, and the protection of a map.
use process_magic.Prelude.{
  ℕ, ◌+◌, ◌/◌, ◌%◌, ◌^◌, ◌≤◌, ◌<◌, ◌≡◌, refl, ◌∙◌, ◌⊎◌, inl, inr, List, [], ◌∷◌, All, arith, ok,
  ltb, Bool-cases, if◌then◌else◌,
}
use process_magic.Words.{Profile, add_u64, add_u64_fits}
use process_magic.Myprocfs.{MemoryMap}
use process_magic.Pcontroller.Regions.{highest_end, prot_of}
use process_magic.Spawn.{child_prot, child_flags}

abbrev pub end_of : MemoryMap → ℕ
end_of m = m.base_address + m.size

abbrev pub IsAnEnd : ℕ → List MemoryMap → Type 0
IsAnEnd h [] = ⊥
IsAnEnd h (m ∷ maps) = (h ≡ end_of m) ⊎ IsAnEnd h maps

-- An address at or above every map's end, which is the end of a map unless it is `start`.
abbrev pub IsHighest : ℕ → List MemoryMap → ℕ → Type 0
IsHighest start maps h = (start ≤ h) × All (λ m. end_of m ≤ h) maps × ((h ≡ start) ⊎ IsAnEnd h maps)

-- with the first map taken in
IsHighest-step :
    (m : MemoryMap) (maps : List MemoryMap) (start h : ℕ)
    → IsHighest (if ltb (end_of m) start then start else end_of m) maps h
    → IsHighest start (m ∷ maps) h
IsHighest-step m maps start h (low, ends, is) = elim (Bool-cases (ltb (end_of m) start)) [
  | inl below ↦
      let s : (if ltb (end_of m) start then start else end_of m) ≡ start = rw below in
      (
        omega (arith, s, low),
        (ground (arith, s, low, below), ends),
        elim is [ inl e ↦ inl (e ∙ s) | inr e ↦ inr (inr e) ],
      )
  | inr above ↦
      let s : (if ltb (end_of m) start then start else end_of m) ≡ end_of m = rw above in
      (
        ground (arith, s, low, above),
        (omega (arith, s, low), ends),
        elim is [ inl e ↦ inr (inl (e ∙ s)) | inr e ↦ inr (inr e) ],
      )
]

-- If no map runs past 2^64, the loop of map_svc_region that looks for an address ends well, and
-- the address is at or above the start value and the end of every map, and is one of them.
pub highest_end-IsHighest :
    (p : Profile) (maps : List MemoryMap) (start : ℕ)
    → All (λ m. end_of m < 2 ^ 64) maps
    → (h : ℕ) × (highest_end (add_u64 p) maps start ≡ ok h) × IsHighest start maps h
unfolding highest_end
highest_end-IsHighest p [] start fits = (start, refl, (omega arith, tt, inl refl))
highest_end-IsHighest p (m ∷ maps) start (fm, fits) =
    let (h, e, is) =
      highest_end-IsHighest p maps (if ltb (end_of m) start then start else end_of m) fits in
    (
      h,
      rw (highest_end, add_u64_fits p m.base_address m.size fm) e,
      IsHighest-step m maps start h is,
    )

-- The protection that map_and_fill_region computes is 1 for readable plus 2 for writable plus 4
-- for executable, and that of map_page_in_child is the same number.
pub prot_of-bits :
    (m : MemoryMap)
    → (prot_of m
        ≡ (if m.readable then 1 else 0)
          + (if m.writable then 2 else 0)
          + (if m.executable then 4 else 0))
      × (child_prot m ≡ prot_of m)
unfolding prot_of child_prot
prot_of-bits m = (ground arith, refl)

-- In the flags that map_page_in_child computes, MAP_SHARED is set exactly for a private map, and
-- MAP_PRIVATE is never set.
pub child_flags-inverted :
    (m : MemoryMap)
    → (child_flags m % 2 ≡ (if m.private then 1 else 0)) × (child_flags m / 2 % 2 ≡ 0)
unfolding child_flags
child_flags-inverted m = ground arith
