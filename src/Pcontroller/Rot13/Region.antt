-- ===== src/Pcontroller/Rot13/Region.antt =====
-- `rot13` over the memory of the tracee: which bytes it changes, and that twice changes none.
use process_magic.Prelude.{
  ℕ, zero, suc, ◌+◌, ◌^◌, ◌≤◌, ◌<◌, ◌≡◌, refl, ◌∙◌, ap, ◌&&◌, arith, Bool-cases, inl, inr, ltb, leb,
  ◌==◌, ==_iff, if◌then◌else◌,
}
use process_magic.Words.{add_u64_fits}
use process_magic.Host.{Host}
use process_magic.Host.Action.{◌>>◌}
use process_magic.Host.Memory.{TraceeMemory, word_at}
use process_magic.Pcontroller.{ProcessController, Session}
use process_magic.Pcontroller.Memory.{Leaves}
use process_magic.Pcontroller.Rot13.{rot13_byte, rot13_word, rot13_at, rot13_from, rot13}
use process_magic.Pcontroller.Rot13.Bytes.{
  rot13_byte-rot13_byte, rot13_word-lt, poked-rot13_word, rot13_byte-eq_of_word,
}

-- The memory `bytes` with the bytes from `first` up to `last` rotated.
abbrev pub rotated : (ℕ → ℕ) → ℕ → ℕ → ℕ → ℕ
rotated bytes first last b = if leb first b && ltb b last then rot13_byte (bytes b) else bytes b

rotated_step :
    (m m' : ℕ → ℕ) (a first last last' b : ℕ)
    → first ≡ a + 1
    → last' ≡ last
    → a < last
    → m' b ≡ (if b == a then rot13_byte (m a) else m b)
    → rotated m' first last' b ≡ rotated m a last b
rotated_step m m' a first last last' b e1 e2 h e = elim (Bool-cases (b == a)) [
  | inl here ↦ let p : b ≡ a = (==_iff b a).0 here in ground (arith, ap m p)
  | inr away ↦ ground arith
]

pub rotated-rotated :
    (m m' m'' : ℕ → ℕ) (first last b : ℕ)
    → m b < 256
    → m' b ≡ rotated m first last b
    → m'' b ≡ rotated m' first last b
    → m'' b ≡ m b
rotated-rotated m m' m'' first last b h e e' = ground (arith, rot13_byte-rot13_byte (m b) h)

module _ (H : Host) (c : ProcessController) (M : TraceeMemory H c.pid) where
  open M use {
    byte_at, byte_at-lt, Accessible, peek, after_poke, poke, byte_at-poke, poke-Accessible,
  }

  abbrev at : H.State → Session H.State
  at s = record { controller = c; os = s }

  rot13_at-Leaves :
      (s : H.State) (a : ℕ)
      → Accessible s a
      → Leaves H c M s
          (λ b. if b == a then rot13_byte (byte_at s a) else byte_at s b)
          (rot13_at H a (at s))
  unfolding rot13_at
  rot13_at-Leaves s a h =
      let w : ℕ = word_at (byte_at s) a in
      elim (Bool-cases (rot13_word w == w)) [
        | inl same ↦
            let kept : rot13_byte (byte_at s a) ≡ byte_at s a =
              rot13_byte-eq_of_word (byte_at s) (byte_at-lt s) a ((==_iff _ _).0 same) in
            record {
              next = s;
              ends = ground (arith, peek s a h, same);
              bytes_eq = λ b. ground (arith, kept);
              accessible = λ b hb. hb;
            }
        | inr other ↦ record {
          next = after_poke s a (rot13_word w);
          ends = ground (arith, peek s a h, other, poke s a (rot13_word w) h);
          bytes_eq = λ b.
              byte_at-poke s a (rot13_word w) b h (rot13_word-lt (byte_at s) (byte_at-lt s) a)
              ∙ poked-rot13_word (byte_at s) (byte_at-lt s) a b;
          accessible = λ b hb. poke-Accessible s a (rot13_word w) b h hb;
        }
      ]

  rot13_from-Leaves :
      (rounds base i : ℕ) (s : H.State)
      → base + (i + rounds) ≤ 2 ^ 64
      → ((j : ℕ) → i ≤ j → j < i + rounds → Accessible s (base + j))
      → Leaves H c M s
          (rotated (byte_at s) (base + i) (base + (i + rounds)))
          (rot13_from H base i rounds (at s))
  unfolding rot13_from
  rot13_from-Leaves zero base i s fits h = record {
    next = s;
    ends = refl;
    bytes_eq = λ b. ground arith;
    accessible = λ b hb. hb;
  }
  rot13_from-Leaves (suc rounds) base i s fits h =
      let a : ℕ = base + i in
      let one : Leaves H c M s (λ b. if b == a then rot13_byte (byte_at s a) else byte_at s b)
          (rot13_at H a (at s)) =
        rot13_at-Leaves s a (h i (omega arith) (omega arith)) in
      let rest =
        rot13_from-Leaves rounds base (i + 1) one.next (omega arith)
          (λ j low high. one.accessible (base + j) (h j (omega arith) (omega arith))) in
      record {
        next = rest.next;
        ends = ground (arith, add_u64_fits H.profile base i (omega arith), one.ends, rest.ends);
        bytes_eq = λ b.
            rest.bytes_eq b
            ∙ rotated_step (byte_at s) (byte_at one.next) a _ _ _ b (omega arith) (omega arith)
                (omega arith) (one.bytes_eq b);
        accessible = λ b hb. rest.accessible b (one.accessible b hb);
      }

  -- For a region that does not run past 2^64 and whose words can be accessed, rot13 ends well,
  -- every byte of the region is rotated, and no other byte of the tracee has changed.
  pub rot13-Leaves :
      (s : H.State) (base count : ℕ)
      → base + count ≤ 2 ^ 64
      → ((j : ℕ) → j < count → Accessible s (base + j))
      → Leaves H c M s (rotated (byte_at s) base (base + count)) (rot13 H base count (at s))
  unfolding rot13
  rot13-Leaves s base count fits h =
      let r = rot13_from-Leaves count base 0 s (omega arith) (λ j low high. h j (omega arith)) in
      record {
        next = r.next;
        ends = r.ends;
        bytes_eq = λ b. r.bytes_eq b ∙ ground arith;
        accessible = r.accessible;
      }

  -- For a region that does not run past 2^64 and whose words can be accessed, rotating it and
  -- rotating it once more ends well and leaves every byte of the tracee as it was.
  pub rot13_twice :
      (s : H.State) (base count : ℕ)
      → base + count ≤ 2 ^ 64
      → ((j : ℕ) → j < count → Accessible s (base + j))
      → Leaves H c M s (byte_at s) ((rot13 H base count >> rot13 H base count) (at s))
  rot13_twice s base count fits h =
      let first : Leaves H c M s (rotated (byte_at s) base (base + count))
          (rot13 H base count (at s)) =
        rot13-Leaves s base count fits h in
      let second =
        rot13-Leaves first.next base count fits (λ j hj. first.accessible (base + j) (h j hj)) in
      record {
        next = second.next;
        ends = ground (arith, first.ends, second.ends);
        bytes_eq = λ b.
            rotated-rotated (byte_at s) (byte_at first.next) (byte_at second.next) base
              (base + count) b (byte_at-lt s b) (first.bytes_eq b) (second.bytes_eq b);
        accessible = λ b hb. second.accessible b (first.accessible b hb);
      }
