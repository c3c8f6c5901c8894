-- ===== src/Pcontroller/Colorize/Written.antt =====
-- proctool/pcontroller.rs: the text that `colorize_stderr` puts into the region.
use mathlib.Core.Path.{subst}
use process_magic.Prelude.{
  ℕ, zero, suc, ◌+◌, ◌-◌, ◌*◌, ◌^◌, ◌≤◌, ◌<◌, ◌≡◌, refl, ◌∙◌, ap, sym, ◌&&◌, List, [], ◌∷◌, ◌++◌,
  All, arith, length, length-append, get_or, ltb, leb, if◌then◌else◌,
}
use process_magic.Words.{add_u64_fits}
use process_magic.Words.Bytes.{from_le, to_le, to_le-from_le, from_le-lt, IsByte}
use process_magic.Host.{Host}
use process_magic.Host.Memory.{TraceeMemory, poked}
use process_magic.Pcontroller.{ProcessController, Session}
use process_magic.Pcontroller.Memory.{Leaves}
use process_magic.Pcontroller.Colorize.{write_words}

-- The memory `m` with `bytes` at `a`.
abbrev pub overwritten : (ℕ → ℕ) → ℕ → List ℕ → ℕ → ℕ
overwritten m a bytes b =
    if leb a b && ltb b (a + length bytes) then get_or bytes (b - a) 0 else m b

-- A word is written as its eight bytes.
poked-from_le :
    (m : ℕ → ℕ) (a b : ℕ) (word : List ℕ)
    → All IsByte word
    → length word ≡ 8
    → poked m a (from_le word) b ≡ overwritten m a word b
poked-from_le m a b word h e =
    let back : to_le 8 (from_le word) ≡ word =
      ap (λ n. to_le n (from_le word)) (sym e) ∙ to_le-from_le word h in
    rw (back, e)

pub get_or-append :
    (xs ys : List ℕ) (k : ℕ)
    → get_or (xs ++ ys) k 0
      ≡ (if ltb k (length xs) then get_or xs k 0 else get_or ys (k - length xs) 0)
get_or-append [] ys k = let e : k - 0 ≡ k = omega arith in rw e (ground arith)
get_or-append (x ∷ xs) ys zero = ground arith
get_or-append (x ∷ xs) ys (suc k) =
    let e : suc k - suc (length xs) ≡ k - length xs = omega arith in
    ground (arith, get_or-append xs ys k, ap (λ t. get_or ys t 0) e)

-- Writing two lists one behind the other is writing them together.
overwritten_append :
    (m : ℕ → ℕ) (a b : ℕ) (xs ys : List ℕ)
    → overwritten (overwritten m a xs) (a + length xs) ys b ≡ overwritten m a (xs ++ ys) b
overwritten_append m a b xs ys =
    let e : b - a - length xs ≡ b - (a + length xs) = omega arith in
    ground (arith, get_or-append xs ys (b - a), length-append xs ys, ap (λ t. get_or ys t 0) e)

overwritten_none : (m : ℕ → ℕ) (a b : ℕ) → m b ≡ overwritten m a [] b
overwritten_none m a b = ground arith

overwritten_eq :
    (m m' : ℕ → ℕ) (a b : ℕ) (xs : List ℕ)
    → m b ≡ m' b
    → overwritten m a xs b ≡ overwritten m' a xs b
overwritten_eq m m' a b xs e = rw e

module _ (H : Host) (c : ProcessController) (M : TraceeMemory H c.pid) where
  open M use {
    byte_at, byte_at-lt, Accessible, peek, after_poke, poke, byte_at-poke, poke-Accessible,
  }

  abbrev at : H.State → Session H.State
  at s = record { controller = c; os = s }

  -- The rounds for the words from index `i` on. What every write keeps, they keep.
  pub write_words-Leaves :
      (Q : H.State → Type 0)
      → ((s : H.State) (a w : ℕ) → Accessible s a → Q s → Q (after_poke s a w))
      → (n region i : ℕ) (bytes : List ℕ) (s : H.State) → length bytes ≡ 8 * n
      → All IsByte bytes
      → region + i + length bytes ≤ 2 ^ 64
      → ((j : ℕ) → j < n → Accessible s (region + i + 8 * j))
      → Q s
      → (l : Leaves H c M s
          (overwritten (byte_at s) (region + i) bytes)
          (write_words H region i bytes (at s)))
        × Q (l.next)
  unfolding write_words
  write_words-Leaves Q keep zero region i [] s e h fits acc q = (
    record {
      next = s;
      ends = refl;
      bytes_eq = overwritten_none (byte_at s) (region + i);
      accessible = λ b hb. hb;
    },
    q,
  )
  write_words-Leaves Q keep (suc n) region i (b0 ∷ b1 ∷ b2 ∷ b3 ∷ b4 ∷ b5 ∷ b6 ∷ b7 ∷ bytes) s e
        (h0, (h1, (h2, (h3, (h4, (h5, (h6, (h7, h)))))))) fits acc q =
      let word : List ℕ = b0 ∷ b1 ∷ b2 ∷ b3 ∷ b4 ∷ b5 ∷ b6 ∷ b7 ∷ [] in
      let word_bytes : All IsByte word = (h0, (h1, (h2, (h3, (h4, (h5, (h6, (h7, tt)))))))) in
      let a : ℕ = region + i in
      let here : Accessible s a = subst (Accessible s) (omega arith) (acc 0 (omega arith)) in
      let t : H.State = after_poke s a (from_le word) in
      let behind : region + (i + 8) ≡ a + 8 = omega arith in
      let (rest, q') =
        write_words-Leaves Q keep n region (i + 8) bytes t (omega (arith, e)) h
          (omega (arith, fits))
          (λ j hj.
            poke-Accessible s a (from_le word) _ here
              (subst (Accessible s) (omega arith) (acc (suc j) (omega arith))))
          (keep s a (from_le word) here q) in
      (
        record {
          next = rest.next;
          ends = ground (
            arith,
            add_u64_fits H.profile region i (omega (arith, fits)),
            poke s a (from_le word) here,
            rest.ends,
          );
          bytes_eq = λ b.
              rest.bytes_eq b
              ∙ ap (λ k. overwritten (byte_at t) k bytes b) behind
              ∙ overwritten_eq (byte_at t) (overwritten (byte_at s) a word) (a + 8) b bytes (
                  byte_at-poke s a (from_le word) b here (from_le-lt word word_bytes)
                  ∙ poked-from_le (byte_at s) a b word word_bytes refl)
              ∙ overwritten_append (byte_at s) a b word bytes;
          accessible = λ b hb. rest.accessible b (poke-Accessible s a (from_le word) b here hb);
        },
        q',
      )
  write_words-Leaves Q keep n region i bytes s e h fits acc q = absurd (omega (arith, e))
