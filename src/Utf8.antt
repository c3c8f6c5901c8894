-- ===== src/Utf8.antt =====
-- UTF-8: `String::from_utf8` and `str::as_bytes`.
pub mod Decoded
pub mod Encoded
use process_magic.Prelude.{
  ℕ, zero, suc, ◌+◌, ◌-◌, ◌*◌, ◌/◌, ◌%◌, Bool, true, false, ◌&&◌, ◌||◌, Option, none, some, List,
  [], ◌∷◌, ◌++◌, ltb, leb, ◌==◌, if◌then◌else◌,
}
use process_magic.Text.{Text}

-- The bytes of one character.
unfoldable pub encode_char : ℕ → List ℕ
encode_char c =
    if ltb c 0x80
    then c ∷ []
    else if ltb c 0x800
    then (0xc0 + c / 64) ∷ (0x80 + c % 64) ∷ []
    else if ltb c 0x10000
    then (0xe0 + c / 4096) ∷ (0x80 + c / 64 % 64) ∷ (0x80 + c % 64) ∷ []
    else (0xf0 + c / 262144) ∷ (0x80 + c / 4096 % 64) ∷ (0x80 + c / 64 % 64) ∷ (0x80 + c % 64) ∷ []

-- `s.as_bytes()`
unfoldable pub as_bytes : Text → List ℕ
as_bytes [] = []
as_bytes (c ∷ s) = encode_char c ++ as_bytes s

-- What the first byte of a character says: how many bytes follow, the bits so far, and the range of
-- the next byte, which leaves out overlong forms, surrogates and what is above 0x10ffff.
pub data Lead : Type 0 where
  ascii bad : Lead
  multi : (following bits lo hi : ℕ) → Lead

pub lead : ℕ → Lead
lead b =
    if ltb b 0x80
    then ascii
    else if leb 0xc2 b && leb b 0xdf
    then multi 1 (b - 0xc0) 0x80 0xbf
    else if b == 0xe0
    then multi 2 0 0xa0 0xbf
    else if b == 0xed
    then multi 2 13 0x80 0x9f
    else if leb 0xe1 b && leb b 0xef
    then multi 2 (b - 0xe0) 0x80 0xbf
    else if b == 0xf0
    then multi 3 0 0x90 0xbf
    else if leb 0xf1 b && leb b 0xf3
    then multi 3 (b - 0xf0) 0x80 0xbf
    else if b == 0xf4
    then multi 3 4 0x80 0x8f
    else bad

pub push : ℕ → Option Text → Option Text
push c none = none
push c (some s) = some (c ∷ s)

-- `following` bytes of a character are still to come.
pub decode : ℕ → ℕ → ℕ → ℕ → List ℕ → Option Text
decode zero bits lo hi [] = some []
decode (suc n) bits lo hi [] = none
decode zero bits lo hi (b ∷ bs) = elim (lead b) [
  | ascii ↦ push b (decode zero 0 0 0 bs)
  | bad ↦ none
  | multi following bits' lo' hi' ↦ decode following bits' lo' hi' bs
]
decode (suc zero) bits lo hi (b ∷ bs) = elim (leb lo b && leb b hi) [
  | true ↦ push (bits * 64 + (b - 0x80)) (decode zero 0 0 0 bs)
  | false ↦ none
]
decode (suc (suc n)) bits lo hi (b ∷ bs) = elim (leb lo b && leb b hi) [
  | true ↦ decode (suc n) (bits * 64 + (b - 0x80)) 0x80 0xbf bs
  | false ↦ none
]

-- `String::from_utf8(bytes)`
unfoldable pub from_utf8 : List ℕ → Option Text
unfolding decode lead push
from_utf8 bytes = decode 0 0 0 0 bytes
