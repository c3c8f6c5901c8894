-- ===== src/Text.antt =====
-- The parts of Rust's `str`, `char` and integer parsing that the program uses. A `str` is the
-- list of its characters, each a code point.
pub mod Numbers
use Prim.Native.Char.{code}
use process_magic.Prelude.{
  ℕ, zero, suc, ◌+◌, ◌-◌, ◌*◌, ◌/◌, ◌%◌, ◌^◌, String, Bool, true, false, ◌&&◌, ◌||◌, not, Option,
  none, some, List, [], ◌∷◌, ◌++◌, Error, parse_int, IntErrorKind, Result, ok, err, ltb, leb, ◌==◌,
  if◌then◌else◌,
}
use process_magic.Prelude.{invalid_digit, pos_overflow, neg_overflow}
use mathlib.Core.List.{reverse}
use process_magic.Int.{ℤ, pos, negsuc, neg}

abbrev pub Text : Type 0
Text = List ℕ

-- The code points of a literal.
abbrev pub codes : String → Text
codes String.[] = []
codes (String.◌∷◌ c s) = code c ∷ codes s

-- `char::is_whitespace`: Unicode's `White_Space`
unfoldable pub is_whitespace : ℕ → Bool
is_whitespace c =
    (leb 9 c && leb c 13)
    || (c == 32)
    || (c == 0x85)
    || (c == 0xa0)
    || (c == 0x1680)
    || (leb 0x2000 c && leb c 0x200a)
    || (c == 0x2028)
    || (c == 0x2029)
    || (c == 0x202f)
    || (c == 0x205f)
    || (c == 0x3000)

-- The number of bytes that a character takes in UTF-8; `s.len()` counts them.
abbrev pub len_utf8 : ℕ → ℕ
len_utf8 c = if ltb c 0x80 then 1 else if ltb c 0x800 then 2 else if ltb c 0x10000 then 3 else 4

abbrev pub byte_len : Text → ℕ
byte_len [] = 0
byte_len (c ∷ s) = len_utf8 c + byte_len s

module _ (p : ℕ → Bool) where
  -- The text before the first character that `p` accepts, and the text behind it if there is one.
  unfoldable pub before : Text → Text
  before [] = []
  before (c ∷ s) = if p c then [] else c ∷ before s

  unfoldable pub behind : Text → Option Text
  behind [] = none
  behind (c ∷ s) = if p c then some s else behind s

  -- `s.splitn(n, p)`
  unfoldable pub splitn : ℕ → Text → List Text
  unfolding before behind
  splitn zero s = []
  splitn (suc zero) s = s ∷ []
  splitn (suc (suc n)) s =
      before s ∷ elim (behind s) [ none ↦ [] | some rest ↦ splitn (suc n) rest ]

unfoldable pub trim_start : Text → Text
unfolding is_whitespace
trim_start [] = []
trim_start (c ∷ s) = if is_whitespace c then trim_start s else c ∷ s

-- `s.trim()`
unfoldable pub trim : Text → Text
unfolding trim_start
trim s = reverse (trim_start (reverse (trim_start s)))

unfoldable pub starts_with : Text → Text → Bool
starts_with s [] = true
starts_with [] (c ∷ p) = false
starts_with (d ∷ s) (c ∷ p) = (d == c) && starts_with s p

unfoldable pub text_eq : Text → Text → Bool
text_eq [] [] = true
text_eq [] (d ∷ t) = false
text_eq (c ∷ s) [] = false
text_eq (c ∷ s) (d ∷ t) = (c == d) && text_eq s t

-- `char::to_digit(radix)` for a radix of at most 36
unfoldable pub to_digit : ℕ → ℕ → Option ℕ
to_digit radix c =
    let d =
      if leb b'0' c && leb c b'9'
      then some (c - b'0')
      else if leb b'a' c && leb c b'z'
      then some (c - b'a' + 10)
      else if leb b'A' c && leb c b'Z'
      then some (c - b'A' + 10)
      else none in
    elim d [ none ↦ none | some x ↦ if ltb x radix then some x else none ]

-- The digit loop of `from_str_radix`: a digit that is none is seen before an overflow.
unfoldable pub scan : ℕ → ℕ → Text → ℕ → Result ℕ
unfolding to_digit
scan radix limit [] n = ok n
scan radix limit (c ∷ s) n = elim (to_digit radix c) [
  | none ↦ err (parse_int invalid_digit)
  | some x ↦
      let rest = scan radix limit s (n * radix + x) in
      if leb (n * radix + x) limit then rest else err (parse_int pos_overflow)
]

abbrev pub max_u64 : ℕ
max_u64 = 2 ^ 64 - 1

-- An unsigned `from_str_radix` whose largest value is `limit`: a sign `+` is passed over, and a
-- sign alone is no number.
unfoldable pub parse_unsigned : ℕ → ℕ → Text → Result ℕ
unfolding scan
parse_unsigned radix limit [] = err (parse_int IntErrorKind.empty)
parse_unsigned radix limit (c ∷ []) =
    if (c == b'+') || (c == b'-')
    then err (parse_int invalid_digit)
    else scan radix limit (c ∷ []) 0
parse_unsigned radix limit (c ∷ d ∷ s) =
    if c == b'+' then scan radix limit (d ∷ s) 0 else scan radix limit (c ∷ d ∷ s) 0

negated : Result ℕ → Result ℤ
negated (ok n) = ok (neg n)
negated (err (parse_int pos_overflow)) = err (parse_int neg_overflow)
negated (err e) = err e
negated Result.panic = Result.panic
negated Result.unfinished = Result.unfinished

positive : Result ℕ → Result ℤ
positive (ok n) = ok (pos n)
positive (err e) = err e
positive Result.panic = Result.panic
positive Result.unfinished = Result.unfinished

-- `s.parse::<i32>()`
unfoldable pub parse_i32 : Text → Result ℤ
unfolding parse_unsigned negated positive
parse_i32 [] = err (parse_int IntErrorKind.empty)
parse_i32 (c ∷ []) = positive (parse_unsigned 10 (2 ^ 31 - 1) (c ∷ []))
parse_i32 (c ∷ d ∷ s) =
    if c == b'-'
    then negated (scan 10 (2 ^ 31) (d ∷ s) 0)
    else positive (parse_unsigned 10 (2 ^ 31 - 1) (c ∷ d ∷ s))

-- A digit below 16, in lower case.
abbrev pub digit_char : ℕ → ℕ
digit_char d = if ltb d 10 then b'0' + d else b'a' + (d - 10)

-- The digits of `n` in front of `out`; `n` rounds are enough, since a round divides `n`.
module _ (radix : ℕ) where
  unfoldable pub digits : ℕ → ℕ → Text → Text
  digits zero n out = out
  digits (suc fuel) n out =
      let more = digits fuel (n / radix) (digit_char (n % radix) ∷ out) in
      if n == 0 then out else more

  unfoldable pub format : ℕ → Text
  unfolding digits
  format n = if n == 0 then b'0' ∷ [] else digits n n []

-- `{}` and `{:x}` of an unsigned number
abbrev pub show_dec : ℕ → Text
show_dec = format 10

abbrev pub show_hex : ℕ → Text
show_hex = format 16

-- `{}` of an `i32`
abbrev pub show_i32 : ℤ → Text
show_i32 (pos n) = show_dec n
show_i32 (negsuc n) = b'-' ∷ show_dec (suc n)
