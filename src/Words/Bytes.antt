-- ===== src/Words/Bytes.antt =====
-- Little-endian words: `i64::from_le_bytes`, `u64::to_le_bytes`, and what a word read from memory is.
use native.Mathlib.Nat.{pow-suc}
use process_magic.Prelude.{
  ℕ, zero, suc, ◌+◌, ◌*◌, ◌/◌, ◌%◌, ◌^◌, ◌≤◌, ◌<◌, ◌≡◌, refl, List, [], ◌∷◌, arith, length, get_or,
  ap, ◌∙◌, All,
}

-- The `n` low bytes of a word, the least significant first.
unfoldable pub to_le : ℕ → ℕ → List ℕ
to_le zero w = []
to_le (suc n) w = (w % 256) ∷ to_le n (w / 256)

unfoldable pub from_le : List ℕ → ℕ
from_le [] = 0
from_le (b ∷ bs) = b + 256 * from_le bs

abbrev pub IsByte : ℕ → Type 0
IsByte b = b < 256

pub from_le-lt : (bs : List ℕ) → All IsByte bs → from_le bs < 256 ^ length bs
unfolding from_le
from_le-lt [] h = omega arith
from_le-lt (b ∷ bs) (hb, hbs) = omega (arith, from_le-lt bs hbs, pow-suc 256 (length bs))

pub to_le-from_le : (bs : List ℕ) → All IsByte bs → to_le (length bs) (from_le bs) ≡ bs
unfolding from_le to_le
to_le-from_le [] h = refl
to_le-from_le (b ∷ bs) (hb, hbs) =
    let low : (b + 256 * from_le bs) % 256 ≡ b = omega arith in
    let high : (b + 256 * from_le bs) / 256 ≡ from_le bs = omega arith in
    rw (low, high, to_le-from_le bs hbs)

pub to_le-IsByte : (n w : ℕ) → All IsByte (to_le n w)
unfolding to_le
to_le-IsByte zero w = tt
to_le-IsByte (suc n) w = (omega arith, to_le-IsByte n (w / 256))

-- `n` bytes of a memory
abbrev pub slice : (ℕ → ℕ) → ℕ → ℕ → List ℕ
slice memory a zero = []
slice memory a (suc n) = memory a ∷ slice memory (a + 1) n

pub length-slice : (memory : ℕ → ℕ) (a n : ℕ) → length (slice memory a n) ≡ n
length-slice memory a zero = refl
length-slice memory a (suc n) = ap suc (length-slice memory (a + 1) n)

pub get_or-slice :
    (memory : ℕ → ℕ) (a n i : ℕ) → i < n → get_or (slice memory a n) i 0 ≡ memory (a + i)
get_or-slice memory a zero i h = absurd (omega arith)
get_or-slice memory a (suc n) zero h = ap memory (omega arith)
get_or-slice memory a (suc n) (suc i) h =
    get_or-slice memory (a + 1) n i (omega arith) ∙ ap memory (omega arith)

pub slice-IsByte :
    (memory : ℕ → ℕ) (a n : ℕ) → ((b : ℕ) → IsByte (memory b)) → All IsByte (slice memory a n)
slice-IsByte memory a zero h = tt
slice-IsByte memory a (suc n) h = (h a, slice-IsByte memory (a + 1) n h)

-- two memories that agree on the bytes
pub slice-eq :
    (m k : ℕ → ℕ) (a n : ℕ) → ((b : ℕ) → a ≤ b → b < a + n → k b ≡ m b) → slice k a n ≡ slice m a n
slice-eq m k a zero h = refl
slice-eq m k a (suc n) h =
    rw
      (
        h a (omega arith) (omega arith),
        slice-eq m k (a + 1) n (λ b lo hi. h b (omega arith) (omega arith)),
      )
      refl
