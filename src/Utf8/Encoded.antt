-- ===== src/Utf8/Encoded.antt =====
-- The bytes of a text are decoded to that text.
use process_magic.Prelude.{
  ℕ, zero, suc, ◌+◌, ◌-◌, ◌*◌, ◌/◌, ◌%◌, ◌≤◌, ◌<◌, ◌≡◌, refl, ap, ◌∙◌, some, List, [], ◌∷◌, ◌++◌,
  arith, All, All-append, false, le→ltb, Bool-cases, ==_iff, ◌==◌, ◌⊎◌, inl, inr,
}
use process_magic.Text.{Text}
use process_magic.Utf8.{Lead, encode_char, as_bytes, lead, push, decode, from_utf8}

-- A `char`: a code point that is no surrogate.
abbrev pub IsScalar : ℕ → Type 0
IsScalar c = (c < 0xd800) ⊎ ((0xe000 ≤ c) × (c < 0x110000))

abbrev ByteCount : ℕ → Type 0
ByteCount c =
    (c < 0x80) ⊎ (((0x80 ≤ c) × (c < 0x800)) ⊎ (((0x800 ≤ c) × (c < 0x10000)) ⊎ (0x10000 ≤ c)))

byte_counts : (c : ℕ) → ByteCount c
byte_counts c = omega arith

decode_one :
    (c : ℕ) (bs : List ℕ)
    → c < 0x80
    → decode 0 0 0 0 (encode_char c ++ bs) ≡ push c (decode 0 0 0 0 bs)
unfolding decode lead encode_char
decode_one c bs h = ground arith

decode_two :
    (c : ℕ) (bs : List ℕ)
    → 0x80 ≤ c
    → c < 0x800
    → decode 0 0 0 0 (encode_char c ++ bs) ≡ push c (decode 0 0 0 0 bs)
unfolding decode lead encode_char
decode_two c bs h1 h2 =
    let e : (0xc0 + c / 64 - 0xc0) * 64 + (0x80 + c % 64 - 0x80) ≡ c = omega arith in
    ground (arith, e)

decode_three :
    (c : ℕ) (bs : List ℕ)
    → 0x800 ≤ c
    → c < 0x10000
    → IsScalar c
    → decode 0 0 0 0 (encode_char c ++ bs) ≡ push c (decode 0 0 0 0 bs)
unfolding decode lead encode_char
decode_three c bs h1 h2 h3 =
    let q : (c / 4096) * 64 + c / 64 % 64 ≡ c / 64 = omega arith in
    let e : ((0xe0 + c / 4096 - 0xe0) * 64 + (0x80 + c / 64 % 64 - 0x80)) * 64
          + (0x80 + c % 64 - 0x80)
        ≡ c =
      omega (arith, q) in
    ground (arith, e)

lead_mid : (a : ℕ) → 1 ≤ a → a ≤ 3 → lead (0xf0 + a) ≡ Lead.multi 3 a 0x80 0xbf
unfolding lead
lead_mid a h1 h2 = ground arith

-- one byte behind the first, and the last one
decode_more :
    (n bits lo hi x : ℕ) (bs : List ℕ)
    → lo ≤ 0x80 + x
    → 0x80 + x ≤ hi
    → decode (suc (suc n)) bits lo hi ((0x80 + x) ∷ bs)
      ≡ decode (suc n) (bits * 64 + x) 0x80 0xbf bs
unfolding decode
decode_more n bits lo hi x bs h1 h2 = let e : 0x80 + x - 0x80 ≡ x = omega arith in ground (arith, e)

decode_last :
    (bits x : ℕ) (bs : List ℕ)
    → x < 64
    → decode 1 bits 0x80 0xbf ((0x80 + x) ∷ bs) ≡ push (bits * 64 + x) (decode 0 0 0 0 bs)
unfolding decode
decode_last bits x bs h = let e : 0x80 + x - 0x80 ≡ x = omega arith in ground (arith, e)

decode_three_more :
    (a lo hi x y z : ℕ) (bs : List ℕ)
    → lo ≤ 0x80 + x
    → 0x80 + x ≤ hi
    → y < 64
    → z < 64
    → decode 3 a lo hi ((0x80 + x) ∷ (0x80 + y) ∷ (0x80 + z) ∷ bs)
      ≡ push (((a * 64 + x) * 64 + y) * 64 + z) (decode 0 0 0 0 bs)
decode_three_more a lo hi x y z bs h1 h2 h3 h4 =
    decode_more 1 a lo hi x _ h1 h2
    ∙ decode_more 0 (a * 64 + x) 0x80 0xbf y _ (omega arith) (omega arith)
    ∙ decode_last ((a * 64 + x) * 64 + y) z bs h4

-- the bits of the four bytes of a character
decode_bits :
    (a x y z : ℕ) (bs : List ℕ)
    → a ≤ 4
    → 16 ≤ a * 64 + x
    → a * 64 + x < 272
    → x < 64
    → y < 64
    → z < 64
    → decode 0 0 0 0 ((0xf0 + a) ∷ (0x80 + x) ∷ (0x80 + y) ∷ (0x80 + z) ∷ bs)
      ≡ push (((a * 64 + x) * 64 + y) * 64 + z) (decode 0 0 0 0 bs)
unfolding decode
decode_bits zero x y z bs h1 h2 h3 h4 h5 h6 =
    unfold lead in decode_three_more 0 0x90 0xbf x y z bs (omega arith) (omega arith) h5 h6
decode_bits (suc a) x y z bs h1 h2 h3 h4 h5 h6 = elim (Bool-cases (a == 3)) [
  | inl four ↦
      let e : a ≡ 3 = (==_iff a 3).0 four in
      rw e (
        unfold lead in
        decode_three_more 4 0x80 0x8f x y z bs (omega arith) (omega (arith, e)) h5 h6)
  | inr less ↦
      rw (decode, lead_mid (suc a) (omega arith) (ground arith))
        (decode_three_more (suc a) 0x80 0xbf x y z bs (omega arith) (omega arith) h5 h6)
]

decode_four :
    (c : ℕ) (bs : List ℕ)
    → 0x10000 ≤ c
    → IsScalar c
    → decode 0 0 0 0 (encode_char c ++ bs) ≡ push c (decode 0 0 0 0 bs)
unfolding encode_char
decode_four c bs h1 h2 =
    let q : (c / 262144) * 64 + c / 4096 % 64 ≡ c / 4096 = omega arith in
    let r : c / 4096 * 64 + c / 64 % 64 ≡ c / 64 = omega arith in
    let e : ((c / 262144 * 64 + c / 4096 % 64) * 64 + c / 64 % 64) * 64 + c % 64 ≡ c =
      omega (arith, q, r) in
    rw (le→ltb c 0x80 (omega arith), le→ltb c 0x800 (omega arith), le→ltb c 0x10000 h1)
      (decode_bits (c / 262144) (c / 4096 % 64) (c / 64 % 64) (c % 64) bs (omega arith)
          (omega (arith, q)) (omega (arith, q)) (omega arith) (omega arith) (omega arith)
        ∙ ap (λ d. push d (decode 0 0 0 0 bs)) e)

decode_char :
    (c : ℕ) (bs : List ℕ)
    → IsScalar c
    → decode 0 0 0 0 (encode_char c ++ bs) ≡ push c (decode 0 0 0 0 bs)
decode_char c bs h = elim (byte_counts c) [
  | inl one ↦ decode_one c bs one
  | inr (inl (low, two)) ↦ decode_two c bs low two
  | inr (inr (inl (low, three))) ↦ decode_three c bs low three h
  | inr (inr (inr four)) ↦ decode_four c bs four h
]

pub from_utf8-as_bytes : (s : Text) → All IsScalar s → from_utf8 (as_bytes s) ≡ some s
unfolding as_bytes from_utf8 decode
from_utf8-as_bytes [] h = refl
from_utf8-as_bytes (c ∷ s) (hc, h) =
    decode_char c (as_bytes s) hc ∙ (unfold push in ap (push c) (from_utf8-as_bytes s h))

-- A byte that is no character of the text is no byte of it either, if it is ASCII.
encode_char-avoids :
    (b c : ℕ) → b < 0x80 → (c == b) ≡ false → All (λ x. (x == b) ≡ false) (encode_char c)
unfolding encode_char
encode_char-avoids b c h e = ground arith

pub as_bytes-avoids :
    (b : ℕ) (s : Text)
    → b < 0x80
    → All (λ c. (c == b) ≡ false) s
    → All (λ x. (x == b) ≡ false) (as_bytes s)
unfolding as_bytes
as_bytes-avoids b [] h _ = tt
as_bytes-avoids b (c ∷ s) h (hc, hs) =
    All-append _ (encode_char c) (as_bytes s) (encode_char-avoids b c h hc)
      (as_bytes-avoids b s h hs)
