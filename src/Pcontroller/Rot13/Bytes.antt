-- ===== src/Pcontroller/Rot13/Bytes.antt =====
-- `rot13_byte` and the word that `rot13` writes, as arithmetic.
use process_magic.Prelude.{
  ℕ, ◌+◌, ◌-◌, ◌*◌, ◌/◌, ◌%◌, ◌^◌, ◌<◌, ◌≡◌, ◌∙◌, ap, ◌&&◌, arith, Bool-cases, inl, inr, ltb, leb,
  ◌==◌, if◌then◌else◌,
}
use process_magic.Words.Bits.{and_mask, and_high, or_low}
use process_magic.Words.Bytes.{from_le}
use process_magic.Host.Memory.{word_at, seven_at, poked}
use process_magic.Host.Memory.Words.{seven-lt, to_le_seven, poked_seven, word_at_split}
use process_magic.Pcontroller.Rot13.{rot13_byte, rot13_word}

-- Twice is nothing at all.
pub rot13_byte-rot13_byte : (b : ℕ) → b < 256 → rot13_byte (rot13_byte b) ≡ b
unfolding rot13_byte
rot13_byte-rot13_byte b h = ground arith

pub rot13_byte-lt : (b : ℕ) → b < 256 → rot13_byte b < 256
unfolding rot13_byte
rot13_byte-lt b h = ground arith

-- Only the low byte of the word changes.
pub rot13_word_lem :
    (b q : ℕ) → b < 256 → q < 2 ^ 56 → rot13_word (b + 256 * q) ≡ rot13_byte b + 256 * q
unfolding rot13_word
rot13_word_lem b q hb hq =
    let high : (b + 256 * q) / 256 * 256 ≡ q * 2 ^ 8 = omega arith in
    let low : (b + 256 * q) % 2 ^ 8 % 256 ≡ b = omega arith in
    rw (and_high (b + 256 * q) (omega arith), and_mask 8 (b + 256 * q), high, low)
      (or_low 8 q (rot13_byte b) (rot13_byte-lt b hb) ∙ omega arith)

-- A word of memory, split into its first byte and the seven behind it.
module _ (m : ℕ → ℕ) (bytes : (a : ℕ) → m a < 256) (a : ℕ) where
  pub rot13_word-word_at :
      rot13_word (word_at m a) ≡ rot13_byte (m a) + 256 * from_le (seven_at m a)
  rot13_word-word_at =
      ap rot13_word (word_at_split m bytes a)
      ∙ rot13_word_lem (m a) (from_le (seven_at m a)) (bytes a) (seven-lt m bytes a)

  pub rot13_word-lt : rot13_word (word_at m a) < 2 ^ 64
  rot13_word-lt =
      rw rot13_word-word_at (omega (arith, rot13_byte-lt (m a) (bytes a), seven-lt m bytes a))

  -- The write changes the byte at `a` alone.
  pub poked-rot13_word :
      (b : ℕ) → poked m a (rot13_word (word_at m a)) b ≡ (if b == a then rot13_byte (m a) else m b)
  poked-rot13_word b =
      rw
        (
          rot13_word-word_at,
          to_le_seven m bytes a (rot13_byte (m a)) (rot13_byte-lt (m a) (bytes a)),
        )
        (elim (Bool-cases (leb a b && ltb b (a + 8))) [
          | inl inside ↦
              let back : a + (b - a) ≡ b = ground arith in
              rw inside (
                poked_seven m bytes a (rot13_byte (m a)) (b - a) (ground arith)
                ∙ ground (arith, ap m back))
          | inr outside ↦ rw outside (ground arith)
        ])

  -- A word that stays the same has a byte that stays the same.
  pub rot13_byte-eq_of_word : rot13_word (word_at m a) ≡ word_at m a → rot13_byte (m a) ≡ m a
  rot13_byte-eq_of_word e = omega (arith, rot13_word-word_at, word_at_split m bytes a, e)
