-- ===== src/Utf8/Decoded/Characters.antt =====
-- The bytes that the decoder takes for one character are the bytes of that character.
use process_magic.Prelude.{
  ℕ, suc, ◌+◌, ◌-◌, ◌*◌, ◌≤◌, ◌<◌, ◌≡◌, refl, Option, none, some, List, [], ◌∷◌, arith, leb, ◌⊎◌,
  inl, inr, Bool-cases, ◌&&◌,
}
use process_magic.Text.{Text}
use process_magic.Utf8.{Lead, encode_char, lead, push, decode}

pub push-eq-some :
    (c : ℕ) (o : Option Text) {s : Text}
    → push c o ≡ some s
    → (t : Text) × (o ≡ some t) × (s ≡ c ∷ t)
unfolding push
push-eq-some c none h = cc
push-eq-some c (some t) h = (t, refl, cc)

pub encode_one : (c : ℕ) → c < 128 → encode_char c ≡ c ∷ []
unfolding encode_char
encode_one c h = ground arith

-- the characters of two, three and four bytes
pub encode_two :
    (a b : ℕ)
    → 2 ≤ a
    → a ≤ 31
    → 128 ≤ b
    → b ≤ 191
    → encode_char (a * 64 + (b - 128)) ≡ (0xc0 + a) ∷ b ∷ []
unfolding encode_char
encode_two a b h1 h2 h3 h4 = ground arith

pub encode_three :
    (a b c : ℕ)
    → a ≤ 15
    → 128 ≤ b
    → b ≤ 191
    → 128 ≤ c
    → c ≤ 191
    → 0x800 ≤ (a * 64 + (b - 128)) * 64 + (c - 128)
    → encode_char ((a * 64 + (b - 128)) * 64 + (c - 128)) ≡ (0xe0 + a) ∷ b ∷ c ∷ []
unfolding encode_char
encode_three a b c h1 h2 h3 h4 h5 h6 = ground arith

pub encode_four :
    (a b c d : ℕ)
    → a ≤ 7
    → 128 ≤ b
    → b ≤ 191
    → 128 ≤ c
    → c ≤ 191
    → 128 ≤ d
    → d ≤ 191
    → 0x10000 ≤ ((a * 64 + (b - 128)) * 64 + (c - 128)) * 64 + (d - 128)
    → encode_char (((a * 64 + (b - 128)) * 64 + (c - 128)) * 64 + (d - 128))
      ≡ (0xf0 + a) ∷ b ∷ c ∷ d ∷ []
unfolding encode_char
encode_four a b c d h1 h2 h3 h4 h5 h6 h7 h8 = ground arith

-- what a first byte allows
abbrev pub LeadFacts : ℕ → Lead → Type 0
LeadFacts b Lead.ascii = b < 128
LeadFacts b Lead.bad = Unit
LeadFacts b (Lead.multi f bits lo hi) =
    (128 ≤ lo)
    × (hi ≤ 191)
    × (((f ≡ 1) × (b ≡ 0xc0 + bits) × (2 ≤ bits) × (bits ≤ 31))
        ⊎ (((f ≡ 2) × (b ≡ 0xe0 + bits) × (bits ≤ 15) × (32 ≤ bits * 64 + (lo - 128)))
            ⊎ ((f ≡ 3) × (b ≡ 0xf0 + bits) × (bits ≤ 7) × (16 ≤ bits * 64 + (lo - 128)))))

pub lead_facts : (b : ℕ) → LeadFacts b (lead b)
unfolding lead
lead_facts b = ground arith

-- the last byte of a character, and the text behind it
abbrev pub Last : ℕ → ℕ → ℕ → List ℕ → Text → Type 0
Last bits lo hi bs s = record {
  byte : ℕ;
  rest : List ℕ;
  tail : Text;
  bytes_eq : bs ≡ byte ∷ rest;
  above : lo ≤ byte;
  below : byte ≤ hi;
  decoded : decode 0 0 0 0 rest ≡ some tail;
  text_eq : s ≡ (bits * 64 + (byte - 128)) ∷ tail;
}

pub Last-byte :
    (bits lo hi : ℕ) (bs : List ℕ) (s : Text)
    → decode 1 bits lo hi bs ≡ some s
    → Last bits lo hi bs s
unfolding decode
Last-byte bits lo hi [] s h = cc
Last-byte bits lo hi (b ∷ bs) s h = elim (Bool-cases (leb lo b && leb b hi)) [
  | inl inside ↦
      let (t, e, es) =
        push-eq-some (bits * 64 + (b - 128)) (decode 0 0 0 0 bs) (rw (inside, decode) at h) in
      record {
        byte = b;
        rest = bs;
        tail = t;
        bytes_eq = refl;
        above = ground arith;
        below = ground arith;
        decoded = e;
        text_eq = es;
      }
  | inr outside ↦ cc (rw (outside, decode) at h)
]

-- a byte that is not the last one of its character
abbrev pub More : ℕ → ℕ → ℕ → ℕ → List ℕ → Text → Type 0
More n bits lo hi bs s = record {
  byte : ℕ;
  rest : List ℕ;
  bytes_eq : bs ≡ byte ∷ rest;
  above : lo ≤ byte;
  below : byte ≤ hi;
  decoded : decode (suc n) (bits * 64 + (byte - 128)) 128 191 rest ≡ some s;
}

pub More-byte :
    (n bits lo hi : ℕ) (bs : List ℕ) (s : Text)
    → decode (suc (suc n)) bits lo hi bs ≡ some s
    → More n bits lo hi bs s
unfolding decode
More-byte n bits lo hi [] s h = cc
More-byte n bits lo hi (b ∷ bs) s h = elim (Bool-cases (leb lo b && leb b hi)) [
  | inl inside ↦ record {
    byte = b;
    rest = bs;
    bytes_eq = refl;
    above = ground arith;
    below = ground arith;
    decoded = rw (inside, decode) at h;
  }
  | inr outside ↦ cc (rw (outside, decode) at h)
]
