-- ===== src/Myprocfs/Filled.antt =====
-- teleclient/myprocfs.rs: what `populate_memory` makes of the maps.
use process_magic.Prelude.{
  ℕ, ◌≡◌, ◌≢◌, refl, ap, ◌∙◌, sym, Error, true, false, List, [], ◌∷◌, Result, ok, err, panic,
  unfinished, ◌⊎◌, inl, inr, Bool, ◌&&◌, Bool-cases, ◌==◌, ==_refl, arith,
}
use mathlib.Core.Bool.{false≢true}
use process_magic.Int.{ℤ}
use process_magic.Text.{Text, codes, text_eq}
use process_magic.Host.{Host, open_mem, seek, read_exact}
use process_magic.Host.Action.{pure, labelled, ◌>>=◌, ◌>>◌, Holds, Holds-bind, Holds-ok}
use process_magic.Myprocfs.{MemoryMap}
use process_magic.Myprocfs.Files.{
  proc_path, is_skipped, with_bytes, populate_map, populate_maps, populate_memory,
}

both : (a b : Bool) → (a && b) ≡ true → (a ≡ true) × (b ≡ true)
both true b h = (refl, h)
both false b h = absurd (false≢true h)

text_eq→≡ : (s t : Text) → text_eq s t ≡ true → s ≡ t
unfolding text_eq
text_eq→≡ [] [] h = refl
text_eq→≡ [] (d ∷ t) h = absurd (false≢true h)
text_eq→≡ (c ∷ s) [] h = absurd (false≢true h)
text_eq→≡ (c ∷ s) (d ∷ t) h =
    let (head, tail) = both (c == d) (text_eq s t) h in
    let first : c ≡ d = ground (arith, head) in let rest : s ≡ t = text_eq→≡ s t tail in cc

text_eq_refl : (s : Text) → text_eq s s ≡ true
unfolding text_eq
text_eq_refl [] = refl
text_eq_refl (c ∷ s) = rw (==_refl c, text_eq_refl s) refl

abbrev vvar : Text
vvar = codes "[vvar]"

module _ (H : Host) (file : ℕ) where
  -- What a read of the map's bytes in the state has made of it
  abbrev pub Reads : MemoryMap → MemoryMap → H.State → Type 0
  Reads m filled u =
      ((bytes : List ℕ) × ((H.perform (read_exact file m.size) u).0 ≡ ok bytes)
        × (filled ≡ record m { bytes = bytes }))
      ⊎ ((e : Error) × ((H.perform (read_exact file m.size) u).0 ≡ err e) × (filled ≡ m))

  -- A map and what it has become: as it was if it is unreadable or [vvar], and else with the bytes
  -- that were read behind a seek to its address, or as it was if that read failed.
  pub record IsFilled (m filled : MemoryMap) : Type 0 where
    pub unreadable : m.readable ≡ false → filled ≡ m
    pub is_vvar : m.label ≡ vvar → filled ≡ m
    pub wanted :
        m.readable ≡ true
        → m.label ≢ vvar
        → (s : H.State) × ((H.perform (seek file m.base_address) s).0 ≡ ok tt)
          × Reads m filled (H.perform (seek file m.base_address) s).1

  abbrev pub FilledAll : List MemoryMap → List MemoryMap → Type 0
  FilledAll [] [] = Unit
  FilledAll [] (filled ∷ rest) = ⊥
  FilledAll (m ∷ maps) [] = ⊥
  FilledAll (m ∷ maps) (filled ∷ rest) = IsFilled m filled × FilledAll maps rest

  skipped-IsFilled : (m : MemoryMap) → is_skipped m ≡ true → IsFilled m m
  unfolding is_skipped
  skipped-IsFilled m skipped = record {
    unreadable = λ _. refl;
    is_vvar = λ _. refl;
    wanted = λ readable other.
        absurd (other (text_eq→≡ m.label vvar (ground (arith, readable, skipped))));
  }

  unreadable-is_skipped : (m : MemoryMap) → m.readable ≡ false → is_skipped m ≡ true
  unfolding is_skipped
  unreadable-is_skipped m h = rw h refl

  vvar-is_skipped : (m : MemoryMap) → m.label ≡ vvar → is_skipped m ≡ true
  unfolding is_skipped
  vvar-is_skipped m h = elim (Bool-cases m.readable) [
    | inl readable ↦ rw (readable, h, text_eq_refl vvar) refl
    | inr hole ↦ unreadable-is_skipped m hole
  ]

  kept-IsFilled :
      (m filled : MemoryMap)
      → is_skipped m ≡ false
      → (s : H.State) → (H.perform (seek file m.base_address) s).0 ≡ ok tt
      → Reads m filled (H.perform (seek file m.base_address) s).1
      → IsFilled m filled
  kept-IsFilled m filled kept s sought reads = record {
    unreadable = λ h. absurd (false≢true (sym kept ∙ unreadable-is_skipped m h));
    is_vvar = λ h. absurd (false≢true (sym kept ∙ vvar-is_skipped m h));
    wanted = λ _ _. (s, sought, reads);
  }

  with_bytes-IsFilled :
      (m : MemoryMap)
      → is_skipped m ≡ false
      → (s : H.State) → (H.perform (seek file m.base_address) s).0 ≡ ok tt
      → (r : Result (List ℕ))
      → (H.perform (read_exact file m.size) (H.perform (seek file m.base_address) s).1).0 ≡ r
      → Holds (IsFilled m) (with_bytes m r)
  with_bytes-IsFilled m kept s sought (ok bytes) e =
      kept-IsFilled m _ kept s sought (inl (bytes, e, refl))
  with_bytes-IsFilled m kept s sought (err e) h = kept-IsFilled m m kept s sought (inr (e, h, refl))
  with_bytes-IsFilled m kept s sought panic e = tt
  with_bytes-IsFilled m kept s sought unfinished e = tt

  populate_map-IsFilled :
      (m : MemoryMap) (s : H.State) → Holds (IsFilled m) (populate_map H file m s).0
  unfolding populate_map
  populate_map-IsFilled m s = elim (Bool-cases (is_skipped m)) [
    | inl skipped ↦ rw skipped (skipped-IsFilled m skipped)
    | inr kept ↦ rw kept (behind kept (H.perform (seek file m.base_address) s).0 refl)
  ]
    where
      -- the read, behind each outcome of the seek
      behind :
          is_skipped m ≡ false
          → (r : Result (Unit {0})) → (H.perform (seek file m.base_address) s).0 ≡ r
          → Holds
              (IsFilled m)
              (◌>>◌
                (labelled "unable to seek"
                  (λ (_ : H.State). (r, (H.perform (seek file m.base_address) s).1)))
                (λ t. (
                  with_bytes m (H.perform (read_exact file m.size) t).0,
                  (H.perform (read_exact file m.size) t).1,
                ))
                s).0
      behind kept (ok a) e = with_bytes-IsFilled m kept s e _ refl
      behind kept (err x) e = tt
      behind kept panic e = tt
      behind kept unfinished e = tt

  populate_maps-FilledAll :
      (maps : List MemoryMap) (s : H.State) → Holds (FilledAll maps) (populate_maps H file maps s).0
  unfolding populate_maps
  populate_maps-FilledAll [] s = tt
  populate_maps-FilledAll (m ∷ maps) s =
      Holds-bind (IsFilled m) (FilledAll (m ∷ maps)) (populate_map H file m)
        (λ filled. populate_maps H file maps >>= λ rest. pure (filled ∷ rest)) s
        (populate_map-IsFilled m s)
        (λ filled t h.
          Holds-bind (FilledAll maps) (FilledAll (m ∷ maps)) (populate_maps H file maps)
            (λ rest. pure (filled ∷ rest)) t (populate_maps-FilledAll maps t) (λ rest u g. (h, g)))

module _ (H : Host) (pid : ℤ) (maps filled : List MemoryMap) (s t : H.State) where
  -- the file that has been opened
  Opened : Result ℕ → Type 0
  Opened r = (file : ℕ) × (r ≡ ok file) × FilledAll H file maps filled

  filled_behind :
      (r : Result ℕ) (u : H.State)
      → ◌>>=◌ (λ (_ : H.State). (r, u)) (λ file. populate_maps H file maps) s ≡ (ok filled, t)
      → Opened r
  unfolding Opened
  filled_behind (ok file) u e = (
    file,
    refl,
    Holds-ok (FilledAll H file maps) (populate_maps H file maps u).0 filled
        (populate_maps-FilledAll H file maps u) (ap (λ o. o.0) e),
  )
  filled_behind (err x) u e = cc
  filled_behind panic u e = cc
  filled_behind unfinished u e = cc

  -- When populate_memory returns, the maps are those that were given, one for one and in order; a
  -- map that is unreadable or [vvar] is as it was, and any other has the bytes that a read of its
  -- size from the memory file gave behind a seek to its address, or is as it was if that read
  -- failed.
  pub populate_memory_keeps :
      populate_memory H pid maps s ≡ (ok filled, t)
      → (file : ℕ) × ((H.perform (open_mem (proc_path pid (codes "mem"))) s).0 ≡ ok file)
        × FilledAll H file maps filled
  unfolding populate_memory Opened
  populate_memory_keeps e =
      filled_behind (H.perform (open_mem (proc_path pid (codes "mem"))) s).0
        (H.perform (open_mem (proc_path pid (codes "mem"))) s).1 e
