-- ===== src/Text/Numbers.antt =====
-- Reading a printed number gives the number back.
use process_magic.Prelude.{
  ℕ, zero, suc, ◌+◌, ◌*◌, ◌/◌, ◌%◌, ◌≤◌, ◌<◌, ◌≡◌, ◌≢◌, refl, ◌∙◌, [], ◌∷◌, ◌++◌, replicate, some,
  ok, arith, ◌==◌, All, All-append, inl, inr, Bool-cases, ◌⊎◌, All-replicate,
}
use process_magic.Text.{
  Text, digit_char, digits, format, scan, to_digit, parse_unsigned, max_u64, show_hex,
}
use mathlib.Core.List.{cons-ne-nil}

pub to_digit-digit_char : (d : ℕ) → d < 16 → to_digit 16 (digit_char d) ≡ some d
unfolding to_digit
to_digit-digit_char d h = ground arith

scan_cons :
    (d n : ℕ) (s : Text)
    → d < 16
    → n * 16 + d ≤ max_u64
    → scan 16 max_u64 (digit_char d ∷ s) n ≡ scan 16 max_u64 s (n * 16 + d)
unfolding scan
scan_cons d n s h fits = rw (to_digit-digit_char d h, scan) (ground arith)

scan-digits :
    (fuel n : ℕ) (out : Text)
    → n ≤ fuel
    → n ≤ max_u64
    → scan 16 max_u64 (digits 16 fuel n out) 0 ≡ scan 16 max_u64 out n
unfolding digits
scan-digits zero zero out h fits = refl
scan-digits zero (suc n) out h fits = absurd (omega arith)
scan-digits (suc fuel) n out h fits = elim (Bool-cases (n == 0)) [
  | inl e ↦ ground arith
  | inr e ↦ rw e (
      scan-digits fuel (n / 16) (digit_char (n % 16) ∷ out) (ground arith) (omega arith)
      ∙ scan_cons (n % 16) (n / 16) out (omega arith) (omega arith)
      ∙ (let p : n / 16 * 16 + n % 16 ≡ n = omega arith in rw p))
]

-- A lower-case hexadecimal digit.
abbrev pub IsHex : ℕ → Type 0
IsHex c = ((b'0' ≤ c) × (c ≤ b'9')) ⊎ ((b'a' ≤ c) × (c ≤ b'f'))

digit_char-IsHex : (d : ℕ) → d < 16 → IsHex (digit_char d)
digit_char-IsHex d h = ground arith

digits-IsHex : (fuel n : ℕ) (out : Text) → All IsHex out → All IsHex (digits 16 fuel n out)
unfolding digits
digits-IsHex zero n out h = h
digits-IsHex (suc fuel) n out h = elim (Bool-cases (n == 0)) [
  | inl e ↦ rw e h
  | inr e ↦ rw e (digits-IsHex fuel (n / 16) _ (digit_char-IsHex (n % 16) (omega arith), h))
]

digits-ne-nil : (fuel n : ℕ) (out : Text) → out ≢ [] → digits 16 fuel n out ≢ []
unfolding digits
digits-ne-nil zero n out h = h
digits-ne-nil (suc fuel) n out h = elim (Bool-cases (n == 0)) [
  | inl e ↦ rw e h
  | inr e ↦ rw e (digits-ne-nil fuel (n / 16) _ (cons-ne-nil _ _))
]

pub show_hex-IsHex : (n : ℕ) → All IsHex (show_hex n)
unfolding format
show_hex-IsHex n = elim (Bool-cases (n == 0)) [
  | inl e ↦ rw e (inl (omega arith, omega arith), tt)
  | inr e ↦ rw e (digits-IsHex n n [] tt)
]

show_hex-ne-nil : (n : ℕ) → show_hex n ≢ []
unfolding format digits
show_hex-ne-nil zero = cons-ne-nil _ _
show_hex-ne-nil (suc n) =
    ground (arith, digits-ne-nil n (suc n / 16) (digit_char (suc n % 16) ∷ []) (cons-ne-nil _ _))

scan-show_hex : (n : ℕ) → n ≤ max_u64 → scan 16 max_u64 (show_hex n) 0 ≡ ok n
unfolding format scan
scan-show_hex n h = elim (Bool-cases (n == 0)) [
  | inl e ↦ rw e (ground arith)
  | inr e ↦ rw e (scan-digits n n [] (omega arith) h)
]

scan-zeros : (k : ℕ) (s : Text) → scan 16 max_u64 (replicate k b'0' ++ s) 0 ≡ scan 16 max_u64 s 0
scan-zeros zero s = refl
scan-zeros (suc k) s = scan_cons 0 0 _ (omega arith) (omega arith) ∙ scan-zeros k s

parse_unsigned-scan :
    (s : Text) → s ≢ [] → All IsHex s → parse_unsigned 16 max_u64 s ≡ scan 16 max_u64 s 0
unfolding parse_unsigned
parse_unsigned-scan [] h _ = absurd (h refl)
parse_unsigned-scan (c ∷ []) h (hc, _) = ground arith
parse_unsigned-scan (c ∷ d ∷ s) h (hc, _) = ground arith

-- A number printed in hexadecimal with `k` zeros in front.
abbrev pub padded_hex : ℕ → ℕ → Text
padded_hex k n = replicate k b'0' ++ show_hex n

pub padded_hex-IsHex : (k n : ℕ) → All IsHex (padded_hex k n)
padded_hex-IsHex k n =
    All-append IsHex _ _ (All-replicate IsHex k b'0' (inl (omega arith, omega arith)))
      (show_hex-IsHex n)

padded_hex-ne-nil : (k n : ℕ) → padded_hex k n ≢ []
padded_hex-ne-nil zero n = show_hex-ne-nil n
padded_hex-ne-nil (suc k) n = cons-ne-nil _ _

-- `u64::from_str_radix(s, 16)` reads a zero-padded hexadecimal print.
pub parse_unsigned-padded_hex :
    (k n : ℕ) → n ≤ max_u64 → parse_unsigned 16 max_u64 (padded_hex k n) ≡ ok n
parse_unsigned-padded_hex k n h =
    parse_unsigned-scan _ (padded_hex-ne-nil k n) (padded_hex-IsHex k n)
    ∙ scan-zeros k (show_hex n)
    ∙ scan-show_hex n h
