-- ===== src/Pcontroller/Colorize/Padded.antt =====
-- proctool/pcontroller.rs: the bytes of the padded text.
use process_magic.Prelude.{
  ℕ, zero, suc, ◌+◌, ◌-◌, ◌%◌, ◌≤◌, ◌≡◌, refl, ◌∙◌, ap, sym, [], ◌∷◌, ◌++◌, All, All-append, arith,
  length, length-append, append_assoc, append-nil, replicate, ◌==◌, Bool-cases, inl, inr,
}
use process_magic.Text.{Text, byte_len, len_utf8}
use process_magic.Utf8.{as_bytes, encode_char}
use process_magic.Utf8.Encoded.{IsScalar}
use process_magic.Words.Bytes.{IsByte}
use process_magic.Pcontroller.Colorize.{pad_to_words}

length-encode_char : (c : ℕ) → length (encode_char c) ≡ len_utf8 c
unfolding encode_char
length-encode_char c = ground arith

length-as_bytes : (s : Text) → length (as_bytes s) ≡ byte_len s
unfolding as_bytes
length-as_bytes [] = refl
length-as_bytes (c ∷ s) =
    omega
      (arith, length-append (encode_char c) (as_bytes s), length-encode_char c, length-as_bytes s)

as_bytes-append : (s t : Text) → as_bytes (s ++ t) ≡ as_bytes s ++ as_bytes t
unfolding as_bytes
as_bytes-append [] t = refl
as_bytes-append (c ∷ s) t = ap (λ r. encode_char c ++ r) (as_bytes-append s t) ∙ rw append_assoc

as_bytes-zeros : (k : ℕ) → as_bytes (replicate k 0) ≡ replicate k 0
unfolding as_bytes encode_char
as_bytes-zeros zero = refl
as_bytes-zeros (suc k) = ap (λ r. 0 ∷ r) (as_bytes-zeros k)

encode_char-bytes : (c : ℕ) → IsScalar c → All IsByte (encode_char c)
unfolding encode_char
encode_char-bytes c h = ground arith

pub as_bytes-bytes : (s : Text) → All IsScalar s → All IsByte (as_bytes s)
unfolding as_bytes
as_bytes-bytes [] h = tt
as_bytes-bytes (c ∷ s) (hc, h) =
    All-append IsByte (encode_char c) (as_bytes s) (encode_char-bytes c hc) (as_bytes-bytes s h)

-- The zeros that are pushed: as few as make the length a multiple of eight.
unfoldable pub padding : ℕ → ℕ
padding n = (8 - n % 8) % 8

byte_len_snoc : (s : Text) → byte_len (s ++ (0 ∷ [])) ≡ byte_len s + 1
byte_len_snoc [] = refl
byte_len_snoc (c ∷ s) = omega (arith, byte_len_snoc s)

no_zeros : (s : Text) (k : ℕ) → k ≡ 0 → s ≡ s ++ replicate k 0
no_zeros s k e = rw (e, append-nil)

one_zero :
    (s : Text) (k k' : ℕ) → k ≡ suc k' → (s ++ (0 ∷ [])) ++ replicate k' 0 ≡ s ++ replicate k 0
one_zero s k k' e = rw (e, append_assoc)

pad_to_words-replicate :
    (rounds : ℕ) (s : Text)
    → padding (byte_len s) ≤ rounds
    → pad_to_words rounds s ≡ s ++ replicate (padding (byte_len s)) 0
unfolding pad_to_words padding
pad_to_words-replicate zero s h = no_zeros s (padding (byte_len s)) (omega arith)
pad_to_words-replicate (suc rounds) s h = elim (Bool-cases (byte_len s % 8 == 0)) [
  | inl full ↦ rw full (no_zeros s (padding (byte_len s)) (ground arith))
  | inr more ↦
      let fewer : padding (byte_len s) ≡ suc (padding (byte_len (s ++ (0 ∷ [])))) =
        ground (arith, byte_len_snoc s) in
      rw more (
        pad_to_words-replicate rounds (s ++ (0 ∷ [])) (omega (arith, fewer))
        ∙ one_zero s (padding (byte_len s)) (padding (byte_len (s ++ (0 ∷ [])))) fewer)
]

-- Seven rounds are enough: the bytes are those of the text with the zeros behind them, and their number
-- is a multiple of eight.
pub padded_bytes :
    (s : Text)
    → as_bytes (pad_to_words 7 s) ≡ as_bytes s ++ replicate (padding (length (as_bytes s))) 0
unfolding padding
padded_bytes s =
    ap as_bytes (pad_to_words-replicate 7 s (omega arith))
    ∙ as_bytes-append s (replicate (padding (byte_len s)) 0)
    ∙ ap (λ t. as_bytes s ++ t) (as_bytes-zeros (padding (byte_len s)))
    ∙ ap (λ n. as_bytes s ++ replicate (padding n) 0) (sym (length-as_bytes s))
