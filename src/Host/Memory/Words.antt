-- ===== src/Host/Memory/Words.antt =====
-- A word of memory and its bytes.
use process_magic.Prelude.{
  ℕ, zero, suc, ◌+◌, ◌-◌, ◌*◌, ◌^◌, ◌<◌, ◌≡◌, refl, ◌∙◌, ap, ◌∷◌, ◌&&◌, arith, get_or, All,
  Bool-cases, inl, inr, ltb, leb, ◌==◌, if◌then◌else◌,
}
use process_magic.Words.Bytes.{from_le, to_le, to_le-from_le, from_le-lt, IsByte}
use process_magic.Host.Memory.{word_at, seven_at, poked}

module _ (m : ℕ → ℕ) (bytes : (a : ℕ) → m a < 256) (a : ℕ) where
  pub seven-bytes : All IsByte (seven_at m a)
  seven-bytes = (
    bytes (a + 1),
    (
      bytes (a + 2),
      (bytes (a + 3), (bytes (a + 4), (bytes (a + 5), (bytes (a + 6), (bytes (a + 7), tt))))),
    ),
  )

  pub seven-lt : from_le (seven_at m a) < 2 ^ 56
  seven-lt = from_le-lt (seven_at m a) seven-bytes

  seven-get_or : (k : ℕ) → k < 7 → get_or (seven_at m a) k 0 ≡ m (a + (k + 1))
  seven-get_or zero h = refl
  seven-get_or (suc zero) h = refl
  seven-get_or (suc (suc zero)) h = refl
  seven-get_or (suc (suc (suc zero))) h = refl
  seven-get_or (suc (suc (suc (suc zero)))) h = refl
  seven-get_or (suc (suc (suc (suc (suc zero))))) h = refl
  seven-get_or (suc (suc (suc (suc (suc (suc zero)))))) h = refl
  seven-get_or (suc (suc (suc (suc (suc (suc (suc k))))))) h = absurd (omega arith)

  -- the bytes of a word whose first byte is `r`
  pub to_le_seven :
      (r : ℕ) → r < 256 → to_le 8 (r + 256 * from_le (seven_at m a)) ≡ r ∷ seven_at m a
  unfolding from_le
  to_le_seven r h = to_le-from_le (r ∷ seven_at m a) (h, seven-bytes)

  pub poked_seven :
      (r k : ℕ) → k < 8 → get_or (r ∷ seven_at m a) k 0 ≡ (if k == 0 then r else m (a + k))
  poked_seven r zero h = refl
  poked_seven r (suc k) h = ground (arith, seven-get_or k)

  pub word_at_split : word_at m a ≡ m a + 256 * from_le (seven_at m a)
  unfolding from_le
  word_at_split = refl

  pub word_at-lt : word_at m a < 2 ^ 64
  word_at-lt = omega (arith, word_at_split, seven-lt, bytes a)

  -- Writing the word of `m` back gives the eight bytes of `m`.
  pub poked-word_at :
      (m' : ℕ → ℕ) (b : ℕ)
      → poked m' a (word_at m a) b ≡ (if leb a b && ltb b (a + 8) then m b else m' b)
  poked-word_at m' b = elim (Bool-cases (leb a b && ltb b (a + 8))) [
    | inl inside ↦
        let back : a + (b - a) ≡ b = ground arith in
        let none_off : a + 0 ≡ a = omega arith in
        rw (word_at_split, to_le_seven (m a) (bytes a), inside)
          (poked_seven (m a) (b - a) (ground arith) ∙ ground (arith, ap m back, ap m none_off))
    | inr outside ↦ rw outside
  ]
