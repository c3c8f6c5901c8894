-- ===== src/Words/Bits.antt =====
-- Bitwise operations on machine words as arithmetic: words split into blocks of bits, and masks.
use Prim.Native.Nat.{
  ℕ, zero, suc, ◌+◌, ◌-◌, ◌*◌, ◌/◌, ◌%◌, ◌^◌, ◌≤◌, ◌<◌, min, max, digits, bit_and, bit_or,
  bit_and-bitwise, bit_or-bitwise,
}
use mathlib.Core.Path.{◌≡◌, refl, ◌∙◌, ap, ap₂, sym}
use native.Mathlib.Nat.{pow-suc, one-le-pow}
use native.Mathlib.Omega.{arith}

-- The library computes on as many digits as the first number has value; more make no difference.
module _ (z : ℕ → ℕ) (f : ℕ → ℕ → ℕ) where
  enough : (n m a b : ℕ) → a ≤ n → a ≤ m → digits z f n a b ≡ digits z f m a b
  enough zero zero a b p q = refl
  enough (suc n) zero zero b p q = refl
  enough zero (suc m) zero b p q = refl
  enough (suc n) (suc m) zero b p q = refl
  enough zero m (suc a) b p q = absurd (omega arith)
  enough (suc n) zero (suc a) b p q = absurd (omega arith)
  enough (suc n) (suc m) (suc a) b p q =
      ap (λ t. t * 2 + f (suc a % 2) (b % 2))
        (enough n m (suc a / 2) (b / 2) (omega arith) (omega arith))

and_bit : (a b : ℕ) → bit_and a b ≡ bit_and (a / 2) (b / 2) * 2 + min (a % 2) (b % 2)
and_bit zero b = simp bit_and-bitwise (omega arith)
and_bit (suc a) b = simp bit_and-bitwise (
    ap (λ t. t * 2 + min (suc a % 2) (b % 2))
      (enough (λ _. 0) min a (suc a / 2) (suc a / 2) (b / 2) (omega arith) (omega arith)))

or_bit : (a b : ℕ) → bit_or a b ≡ bit_or (a / 2) (b / 2) * 2 + max (a % 2) (b % 2)
or_bit zero b = simp bit_or-bitwise (omega arith)
or_bit (suc a) b = simp bit_or-bitwise (
    ap (λ t. t * 2 + max (suc a % 2) (b % 2))
      (enough (λ y. y) max a (suc a / 2) (suc a / 2) (b / 2) (omega arith) (omega arith)))

double : (q k : ℕ) → q * 2 ^ suc k ≡ q * 2 ^ k * 2
double q k = omega (arith, ap (λ (t : ℕ). q * t) (pow-suc 2 k))

half_block : (q r k : ℕ) → (q * 2 ^ suc k + r) / 2 ≡ q * 2 ^ k + r / 2
half_block q r k = omega (arith, double q k)

low_block : (q r k : ℕ) → (q * 2 ^ suc k + r) % 2 ≡ r % 2
low_block q r k = omega (arith, double q k)

half-lt : (r k : ℕ) → r < 2 ^ suc k → r / 2 < 2 ^ k
half-lt r k h = omega (arith, pow-suc 2 k)

zero_block : (k r : ℕ) → r ≡ 0 * 2 ^ k + r
zero_block k r = omega arith

-- An operation that works bit by bit works block by block.
module _ (op f : ℕ → ℕ → ℕ) (bit : (a b : ℕ) → op a b ≡ op (a / 2) (b / 2) * 2 + f (a % 2) (b % 2))
    (none_set : op 0 0 ≡ 0) where
  blocks :
      (k q r m n : ℕ)
      → r < 2 ^ k
      → n < 2 ^ k
      → op (q * 2 ^ k + r) (m * 2 ^ k + n) ≡ op q m * 2 ^ k + op r n
  blocks zero q r m n hr hn =
      let er : r ≡ 0 = omega arith in
      let en : n ≡ 0 = omega arith in rw (er, en, none_set) (ground arith)
  blocks (suc k) q r m n hr hn =
      bit (q * 2 ^ suc k + r) (m * 2 ^ suc k + n)
      ∙ rw (half_block q r k, half_block m n k, low_block q r k, low_block m n k)
          (omega (
            arith,
            blocks k q (r / 2) m (n / 2) (half-lt r k hr) (half-lt n k hn),
            bit r n,
            double (op q m) k,
          ))

and-zero_below : (n a : ℕ) → a ≤ n → bit_and a 0 ≡ 0
and-zero_below n zero h = refl
and-zero_below zero (suc a) h = absurd (omega arith)
and-zero_below (suc n) (suc a) h =
    omega (arith, and_bit (suc a) 0, and-zero_below n (suc a / 2) (omega arith))

pub and-zero : (a : ℕ) → bit_and a 0 ≡ 0
and-zero a = and-zero_below a a (omega arith)

or-zero_below : (n a : ℕ) → a ≤ n → bit_or a 0 ≡ a
or-zero_below n zero h = refl
or-zero_below zero (suc a) h = absurd (omega arith)
or-zero_below (suc n) (suc a) h =
    omega (arith, or_bit (suc a) 0, or-zero_below n (suc a / 2) (omega arith))

pub or-zero : (a : ℕ) → bit_or a 0 ≡ a
or-zero a = or-zero_below a a (omega arith)

-- `k` ones keep a number of `k` bits.
and_ones : (k r : ℕ) → r < 2 ^ k → bit_and r (2 ^ k - 1) ≡ r
and_ones zero r h = let e : r ≡ 0 = omega arith in rw e (refl)
and_ones (suc k) r h =
    and_bit r (2 ^ suc k - 1)
    ∙ (let ones : (2 ^ suc k - 1) / 2 ≡ 2 ^ k - 1 = omega (arith, pow-suc 2 k) in
        rw ones (omega (arith, and_ones k (r / 2) (half-lt r k h), pow-suc 2 k, one-le-pow k 2)))

-- A mask of the `k` low bits is a remainder.
pub and_mask : (k a : ℕ) → bit_and a (2 ^ k - 1) ≡ a % 2 ^ k
and_mask k a =
    let whole : a / 2 ^ k * 2 ^ k + a % 2 ^ k ≡ a = grind (arith, one-le-pow k 2) in
    let split =
      blocks bit_and min and_bit refl k (a / 2 ^ k) (a % 2 ^ k) 0 (2 ^ k - 1)
        (grind (arith, one-le-pow k 2)) (omega (arith, one-le-pow k 2)) in
    ap₂ bit_and (sym whole) (zero_block k (2 ^ k - 1))
    ∙ split
    ∙ rw (and-zero, and_ones k (a % 2 ^ k) (grind (arith, one-le-pow k 2))) (omega arith)

-- `c & !0xff` on 64 bits clears the low byte.
pub and_high : (c : ℕ) → c < 2 ^ 64 → bit_and c (2 ^ 64 - 256) ≡ c / 256 * 256
and_high c h =
    let whole : c / 256 * 2 ^ 8 + c % 256 ≡ c = omega arith in
    let split =
      blocks bit_and min and_bit refl 8 (c / 256) (c % 256) (2 ^ 56 - 1) 0 (omega arith)
        (omega arith) in
    ap (λ t. bit_and t (2 ^ 64 - 256)) (sym whole)
    ∙ split
    ∙ rw (and-zero, and_ones 56 (c / 256) (omega arith)) (omega arith)

-- `|` of a word whose `k` low bits are clear with a number of `k` bits is a sum.
pub or_low : (k q r : ℕ) → r < 2 ^ k → bit_or (q * 2 ^ k) r ≡ q * 2 ^ k + r
or_low k q r h =
    let left : q * 2 ^ k + 0 ≡ q * 2 ^ k = omega arith in
    let split = blocks bit_or max or_bit refl k q 0 0 r (omega (arith, one-le-pow k 2)) h in
    ap₂ bit_or (sym left) (zero_block k r)
    ∙ split
    ∙ rw or-zero (ap (λ t. q * 2 ^ k + t) (bit_or-bitwise 0 r))

pub or_high : (k q r : ℕ) → r < 2 ^ k → bit_or r (q * 2 ^ k) ≡ r + q * 2 ^ k
or_high k q r h =
    let right : q * 2 ^ k + 0 ≡ q * 2 ^ k = omega arith in
    let split = blocks bit_or max or_bit refl k 0 r q 0 h (omega (arith, one-le-pow k 2)) in
    ap₂ bit_or (zero_block k r) (sym right) ∙ split ∙ rw (or-zero, bit_or-bitwise 0 q) (omega arith)

-- A mask of `k` ones above `lo` zeros takes out a field.
pub and_field : (lo k a : ℕ) → bit_and a ((2 ^ k - 1) * 2 ^ lo) ≡ a / 2 ^ lo % 2 ^ k * 2 ^ lo
and_field lo k a =
    let whole : a / 2 ^ lo * 2 ^ lo + a % 2 ^ lo ≡ a = grind (arith, one-le-pow lo 2) in
    let above : (2 ^ k - 1) * 2 ^ lo + 0 ≡ (2 ^ k - 1) * 2 ^ lo = omega arith in
    let split =
      blocks bit_and min and_bit refl lo (a / 2 ^ lo) (a % 2 ^ lo) (2 ^ k - 1) 0
        (grind (arith, one-le-pow lo 2)) (omega (arith, one-le-pow lo 2)) in
    ap₂ bit_and (sym whole) (sym above)
    ∙ split
    ∙ rw (and-zero, and_mask k (a / 2 ^ lo)) (omega arith)
