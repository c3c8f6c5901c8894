-- ===== src/Host/Memory.antt =====
-- What the code relies on of PTRACE_PEEKDATA and PTRACE_POKEDATA (ptrace(2)): they read and write
-- the eight bytes at an address of the stopped tracee, the lowest address in the lowest byte.
pub mod Words
use process_magic.Prelude.{
  ℕ, ◌+◌, ◌-◌, ◌^◌, ◌<◌, ◌≡◌, ◌&&◌, List, [], ◌∷◌, ok, get_or, ltb, leb, if◌then◌else◌,
}
use process_magic.Int.{ℤ}
use process_magic.Words.Bytes.{from_le, to_le}
use process_magic.Host.{Host, ptrace_read, ptrace_write}

-- the bytes of a memory from an address on
abbrev pub seven_at : (ℕ → ℕ) → ℕ → List ℕ
seven_at m a =
    m (a + 1) ∷ m (a + 2) ∷ m (a + 3) ∷ m (a + 4) ∷ m (a + 5) ∷ m (a + 6) ∷ m (a + 7) ∷ []

abbrev pub word_at : (ℕ → ℕ) → ℕ → ℕ
word_at m a = from_le (m a ∷ seven_at m a)

-- a memory after a write of eight bytes
abbrev pub poked : (ℕ → ℕ) → ℕ → ℕ → ℕ → ℕ
poked m a w b = if leb a b && ltb b (a + 8) then get_or (to_le 8 w) (b - a) 0 else m b

pub record TraceeMemory (H : Host) (pid : ℤ) : Type 1 where
  pub byte_at : H.State → ℕ → ℕ
  pub byte_at-lt : (s : H.State) (a : ℕ) → byte_at s a < 256
  -- the tracee is stopped, and the word at the address lies in its memory
  pub Accessible : H.State → ℕ → Type 0
  pub peek :
      (s : H.State) (a : ℕ)
      → Accessible s a
      → H.perform (ptrace_read pid a) s ≡ (ok (word_at (byte_at s) a), s)
  pub after_poke : H.State → ℕ → ℕ → H.State
  pub poke :
      (s : H.State) (a w : ℕ)
      → Accessible s a
      → H.perform (ptrace_write pid a w) s ≡ (ok tt, after_poke s a w)
  pub byte_at-poke :
      (s : H.State) (a w b : ℕ)
      → Accessible s a
      → w < 2 ^ 64
      → byte_at (after_poke s a w) b ≡ poked (byte_at s) a w b
  pub poke-Accessible :
      (s : H.State) (a w b : ℕ) → Accessible s a → Accessible s b → Accessible (after_poke s a w) b
