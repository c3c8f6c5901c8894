-- ===== src/Pcontroller/Syscalls/Search.antt =====
-- The search for an `svc` instruction finds the first one, and misses none.
use process_magic.Prelude.{
  ℕ, zero, suc, ◌+◌, ◌-◌, ◌^◌, ◌≤◌, ◌<◌, ◌≡◌, refl, ◌∙◌, true, false, List, [], ◌∷◌, Option, none,
  some, arith, ok, length, drop, Bool-cases, inl, inr,
}
use mathlib.Core.Bool.{false≢true}
use mathlib.Core.Path.{subst}
use process_magic.Prelude.{sym, ap, ◌++◌}
use process_magic.Words.{Profile, add_u64_fits}
use process_magic.Pcontroller.Syscalls.{svc_bytes, starts_with_svc, find_svc, search_buffer}

-- What the outcome of the search says of the `rounds` places from `i` on, where `bs` begins.
abbrev Found : ℕ → ℕ → List ℕ → Option ℕ → Type 0
Found rounds i bs none = (k : ℕ) → k < rounds → starts_with_svc (drop k bs) ≡ false
Found rounds i bs (some r) = record {
  skip : ℕ;
  place : r ≡ i + skip;
  inside : skip < rounds;
  hit : starts_with_svc (drop skip bs) ≡ true;
  first : (j : ℕ) → j < skip → starts_with_svc (drop j bs) ≡ false;
}

drop-nil : (k : ℕ) → starts_with_svc (drop k []) ≡ false
unfolding starts_with_svc
drop-nil zero = refl
drop-nil (suc k) = refl

later_none :
    (rounds : ℕ) (b : ℕ) (bs : List ℕ)
    → starts_with_svc (b ∷ bs) ≡ false
    → ((k : ℕ) → k < rounds → starts_with_svc (drop k bs) ≡ false)
    → (k : ℕ) → k < suc rounds
    → starts_with_svc (drop k (b ∷ bs)) ≡ false
later_none rounds b bs e f zero h = e
later_none rounds b bs e f (suc k) h = f k (omega arith)

later :
    (rounds i : ℕ) (b : ℕ) (bs : List ℕ) (o : Option ℕ)
    → starts_with_svc (b ∷ bs) ≡ false
    → Found rounds (i + 1) bs o
    → Found (suc rounds) i (b ∷ bs) o
later rounds i b bs none e f = later_none rounds b bs e f
later rounds i b bs (some r) e f = record {
  skip = suc f.skip;
  place = omega (arith, f.place);
  inside = omega (arith, f.inside);
  hit = f.hit;
  first = λ j hj. before_skip j hj;
}
  where
    before_skip : (j : ℕ) → j < suc f.skip → starts_with_svc (drop j (b ∷ bs)) ≡ false
    before_skip zero hj = e
    before_skip (suc j) hj = f.first j (omega arith)

find_svc-Found : (rounds i : ℕ) (bs : List ℕ) → Found rounds i bs (find_svc rounds i bs)
unfolding find_svc
find_svc-Found zero i bs = λ k h. absurd (omega arith)
find_svc-Found (suc rounds) i [] = λ k h. drop-nil k
find_svc-Found (suc rounds) i (b ∷ bs) = elim (Bool-cases (starts_with_svc (b ∷ bs))) [
  | inl here ↦ rw here (record {
    skip = 0;
    place = omega arith;
    inside = omega arith;
    hit = here;
    first = λ j hj. absurd (omega arith);
  })
  | inr away ↦ rw away (later rounds i b bs _ away (find_svc-Found rounds (i + 1) bs))
]

-- The instruction `svc #0` begins at an index of the buffer.
abbrev pub SvcAt : List ℕ → ℕ → Type 0
SvcAt buffer k = (rest : List ℕ) × (drop k buffer ≡ svc_bytes ++ rest)

starts_with_svc_sound :
    (bs : List ℕ) → starts_with_svc bs ≡ true → (rest : List ℕ) × (bs ≡ svc_bytes ++ rest)
unfolding starts_with_svc
starts_with_svc_sound (b0 ∷ b1 ∷ b2 ∷ b3 ∷ bs) h = (bs, ground arith)
starts_with_svc_sound [] h = cc
starts_with_svc_sound (b0 ∷ []) h = cc
starts_with_svc_sound (b0 ∷ b1 ∷ []) h = cc
starts_with_svc_sound (b0 ∷ b1 ∷ b2 ∷ []) h = cc

starts_with_svc_complete : (bs : List ℕ) → starts_with_svc (svc_bytes ++ bs) ≡ true
unfolding starts_with_svc
starts_with_svc_complete bs = refl

not-SvcAt : (buffer : List ℕ) (k : ℕ) → starts_with_svc (drop k buffer) ≡ false → ¬ SvcAt buffer k
not-SvcAt buffer k h (rest, e) =
    false≢true (sym h ∙ (ap starts_with_svc e ∙ starts_with_svc_complete rest))

length-drop : (k : ℕ) (bs : List ℕ) → length (drop k bs) ≡ length bs - k
length-drop zero bs = omega arith
length-drop (suc k) [] = omega arith
length-drop (suc k) (b ∷ bs) = omega (arith, length-drop k bs)

SvcAt-lt : (buffer : List ℕ) (k : ℕ) → SvcAt buffer k → k < length buffer - 3
SvcAt-lt buffer k (rest, e) = omega (arith, ap length e, length-drop k buffer)

-- For a buffer that does not run past 2^64, an address that the search returns is that of an svc
-- instruction in the buffer, and no svc instruction begins before it.
pub search_buffer_first :
    (p : Profile) (base : ℕ) (buffer : List ℕ) (addr : ℕ)
    → base + length buffer ≤ 2 ^ 64
    → search_buffer p base buffer ≡ ok addr
    → (k : ℕ) × (addr ≡ base + k) × SvcAt buffer k × ((j : ℕ) → j < k → ¬ SvcAt buffer j)
unfolding search_buffer
search_buffer_first p base buffer addr fits h =
    by_outcome (find_svc (length buffer - 3) 0 buffer) refl
  where
    by_outcome :
        (o : Option ℕ)
        → find_svc (length buffer - 3) 0 buffer ≡ o
        → (k : ℕ) × (addr ≡ base + k) × SvcAt buffer k × ((j : ℕ) → j < k → ¬ SvcAt buffer j)
    by_outcome none e = ground (arith, e)
    by_outcome (some r) e =
        let f : Found (length buffer - 3) 0 buffer (some r) =
          subst (Found (length buffer - 3) 0 buffer) e
            (find_svc-Found (length buffer - 3) 0 buffer) in
        let (rest, hit) = starts_with_svc_sound (drop f.skip buffer) f.hit in
        (
          f.skip,
          ground (arith, e, f.place, f.inside, add_u64_fits p base r),
          (rest, hit),
          λ j hj. not-SvcAt buffer j (f.first j hj),
        )

-- For a buffer that does not run past 2^64 and that holds an svc instruction, the search returns
-- an address.
pub search_buffer_complete :
    (p : Profile) (base : ℕ) (buffer : List ℕ) (k : ℕ)
    → base + length buffer ≤ 2 ^ 64
    → SvcAt buffer k
    → (addr : ℕ) × (search_buffer p base buffer ≡ ok addr)
unfolding search_buffer
search_buffer_complete p base buffer k fits at =
    by_outcome (find_svc (length buffer - 3) 0 buffer) refl
  where
    by_outcome :
        (o : Option ℕ)
        → find_svc (length buffer - 3) 0 buffer ≡ o
        → (addr : ℕ) × (search_buffer p base buffer ≡ ok addr)
    by_outcome none e = absurd (
        not-SvcAt buffer k
          (subst (Found (length buffer - 3) 0 buffer) e
            (find_svc-Found (length buffer - 3) 0 buffer) k (SvcAt-lt buffer k at))
          at)
    by_outcome (some r) e =
        let f : Found (length buffer - 3) 0 buffer (some r) =
          subst (Found (length buffer - 3) 0 buffer) e
            (find_svc-Found (length buffer - 3) 0 buffer) in
        (
          base + r,
          ground (arith, e, f.place, f.inside, add_u64_fits p base r, SvcAt-lt buffer k at),
        )
