-- ===== src/Utf8/Decoded.antt =====
-- The bytes of a decoded text are the bytes that it was decoded from.
pub mod Characters
use process_magic.Prelude.{
  ℕ, zero, suc, ◌+◌, ◌-◌, ◌*◌, ◌≤◌, ◌<◌, ◌≡◌, refl, ap, ◌∙◌, sym, Option, none, some, List, [], ◌∷◌,
  ◌++◌, length, arith, leb, ◌⊎◌, inl, inr, Bool-cases, ◌&&◌,
}
use process_magic.Text.{Text}
use process_magic.Utf8.{Lead, encode_char, as_bytes, lead, push, decode, from_utf8}
use process_magic.Utf8.Decoded.Characters.{
  push-eq-some, encode_one, encode_two, encode_three, encode_four, LeadFacts, lead_facts, Last,
  Last-byte, More, More-byte,
}

-- `as_bytes` of the texts behind, for byte lists shorter than `n`
abbrev Below : ℕ → Type 0
Below n = (bs : List ℕ) (s : Text) → length bs < n → decode 0 0 0 0 bs ≡ some s → as_bytes s ≡ bs

-- a character is the bytes `cs`, and the text behind it is `bs`
as_bytes_cons :
    (c : ℕ) (cs bs : List ℕ) (t : Text)
    → encode_char c ≡ cs
    → as_bytes t ≡ bs
    → as_bytes (c ∷ t) ≡ cs ++ bs
unfolding as_bytes
as_bytes_cons c cs bs t e h = rw (e, h)

module _ (n : ℕ) (ih : Below n) where
  two :
      (bits lo hi : ℕ) (bs : List ℕ) (s : Text)
      → length bs ≤ n
      → 2 ≤ bits
      → bits ≤ 31
      → 128 ≤ lo
      → hi ≤ 191
      → decode 1 bits lo hi bs ≡ some s
      → as_bytes s ≡ (0xc0 + bits) ∷ bs
  two bits lo hi bs s len h1 h2 h3 h4 h =
      let l : Last bits lo hi bs s = Last-byte bits lo hi bs s h in
      let short : length l.rest < n = omega (arith, ap length l.bytes_eq) in
      ap as_bytes l.text_eq
      ∙ as_bytes_cons _ _ l.rest l.tail
          (encode_two bits l.byte h1 h2 (omega (arith, l.above)) (omega (arith, l.below)))
          (ih l.rest l.tail short l.decoded)
      ∙ rw l.bytes_eq

  three :
      (bits lo hi : ℕ) (bs : List ℕ) (s : Text)
      → length bs ≤ n
      → bits ≤ 15
      → 32 ≤ bits * 64 + (lo - 128)
      → 128 ≤ lo
      → hi ≤ 191
      → decode 2 bits lo hi bs ≡ some s
      → as_bytes s ≡ (0xe0 + bits) ∷ bs
  three bits lo hi bs s len h1 h2 h3 h4 h =
      let m : More 0 bits lo hi bs s = More-byte 0 bits lo hi bs s h in
      let bits' : ℕ = bits * 64 + (m.byte - 128) in
      let l : Last bits' 128 191 m.rest s = Last-byte bits' 128 191 m.rest s m.decoded in
      let short : length l.rest < n = omega (arith, ap length m.bytes_eq, ap length l.bytes_eq) in
      ap as_bytes l.text_eq
      ∙ as_bytes_cons _ _ l.rest l.tail
          (encode_three bits m.byte l.byte h1 (omega (arith, m.above)) (omega (arith, m.below))
            l.above l.below (omega (arith, m.above)))
          (ih l.rest l.tail short l.decoded)
      ∙ rw (m.bytes_eq, l.bytes_eq)

  four :
      (bits lo hi : ℕ) (bs : List ℕ) (s : Text)
      → length bs ≤ n
      → bits ≤ 7
      → 16 ≤ bits * 64 + (lo - 128)
      → 128 ≤ lo
      → hi ≤ 191
      → decode 3 bits lo hi bs ≡ some s
      → as_bytes s ≡ (0xf0 + bits) ∷ bs
  four bits lo hi bs s len h1 h2 h3 h4 h =
      let m : More 1 bits lo hi bs s = More-byte 1 bits lo hi bs s h in
      let bits' : ℕ = bits * 64 + (m.byte - 128) in
      let k : More 0 bits' 128 191 m.rest s = More-byte 0 bits' 128 191 m.rest s m.decoded in
      let bits'' : ℕ = bits' * 64 + (k.byte - 128) in
      let l : Last bits'' 128 191 k.rest s = Last-byte bits'' 128 191 k.rest s k.decoded in
      let short : length l.rest < n =
        omega (arith, ap length m.bytes_eq, ap length k.bytes_eq, ap length l.bytes_eq) in
      ap as_bytes l.text_eq
      ∙ as_bytes_cons _ _ l.rest l.tail
          (encode_four bits m.byte k.byte l.byte h1 (omega (arith, m.above))
            (omega (arith, m.below)) k.above k.below l.above l.below (omega (arith, m.above)))
          (ih l.rest l.tail short l.decoded)
      ∙ rw (m.bytes_eq, k.bytes_eq, l.bytes_eq)

  by_lead :
      (b : ℕ) (bs : List ℕ) (s : Text) (l : Lead)
      → lead b ≡ l
      → LeadFacts b l
      → suc (length bs) < suc n
      → decode 0 0 0 0 (b ∷ bs) ≡ some s
      → as_bytes s ≡ b ∷ bs
  unfolding decode
  by_lead b bs s Lead.ascii e facts len h =
      let (t, d, es) = push-eq-some b (decode 0 0 0 0 bs) (rw (e, decode) at h) in
      ap as_bytes es ∙ as_bytes_cons b (b ∷ []) bs t (encode_one b facts) (ih bs t (omega arith) d)
  by_lead b bs s Lead.bad e facts len h = cc (rw (e, decode) at h)
  by_lead b bs s (Lead.multi f bits lo hi) e (h1, h2, inl (ef, eb, p, q)) len h =
      rw eb (two bits lo hi bs s (omega arith) p q h1 h2 (rw (e, decode, ef) at h))
  by_lead b bs s (Lead.multi f bits lo hi) e (h1, h2, inr (inl (ef, eb, p, q))) len h =
      rw eb (three bits lo hi bs s (omega arith) p q h1 h2 (rw (e, decode, ef) at h))
  by_lead b bs s (Lead.multi f bits lo hi) e (h1, h2, inr (inr (ef, eb, p, q))) len h =
      rw eb (four bits lo hi bs s (omega arith) p q h1 h2 (rw (e, decode, ef) at h))

shorter : (n : ℕ) → Below n
unfolding decode as_bytes
shorter zero bs s len h = absurd (omega arith)
shorter (suc n) [] s len h = let e : [] ≡ s = cc in ap as_bytes (sym e)
shorter (suc n) (b ∷ bs) s len h =
    by_lead n (shorter n) b bs s (lead b) refl (lead_facts b) (omega arith) h

-- The bytes of a text that was decoded from `bytes` are `bytes`.
pub as_bytes-from_utf8 : (bytes : List ℕ) (s : Text) → from_utf8 bytes ≡ some s → as_bytes s ≡ bytes
unfolding from_utf8
as_bytes-from_utf8 bytes s h = shorter (suc (length bytes)) bytes s (omega arith) h
