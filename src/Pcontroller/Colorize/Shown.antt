-- ===== src/Pcontroller/Colorize/Shown.antt =====
-- proctool/pcontroller.rs: what the kernel finds when `colorize_stderr` is done.
use mathlib.Core.Path.{subst}
use process_magic.Prelude.{
  ℕ, ◌+◌, ◌-◌, ◌*◌, ◌/◌, ◌^◌, ◌≤◌, ◌<◌, ◌≡◌, refl, ◌∙◌, ap, sym, List, All, All-append,
  All-replicate, arith, ok, length, length-append, length-replicate, replicate, get_or, ◌⊎◌, inl,
}
use process_magic.Text.{Text}
use process_magic.Utf8.{as_bytes}
use process_magic.Utf8.Encoded.{IsScalar}
use process_magic.Words.Bytes.{IsByte}
use process_magic.Host.{Host, Registers}
use process_magic.Host.Machine.{TraceeMachine}
use process_magic.Pcontroller.{ProcessController, Session, set_registers}
use process_magic.Pcontroller.Waiting.{get_registers-at}
use process_magic.Pcontroller.Syscalls.{update}
use process_magic.Pcontroller.Colorize.{red, pad_to_words, read_string, colorize_stderr}
use process_magic.Pcontroller.Colorize.Padded.{padding, padded_bytes, as_bytes-bytes}
use process_magic.Pcontroller.Colorize.Written.{overwritten, write_words-Leaves, get_or-append}

-- The bytes that are to be shown, and those that are written.
abbrev pub shown : Text → List ℕ
shown s = as_bytes (red s)

abbrev written : Text → List ℕ
written s = as_bytes (pad_to_words 7 (red s))

red-IsScalar : (s : Text) → All IsScalar s → All IsScalar (red s)
unfolding red
red-IsScalar s h = (
  inl (omega arith),
  (
    inl (omega arith),
    (
      inl (omega arith),
      (
        inl (omega arith),
        (
          inl (omega arith),
          All-append IsScalar s _ h (
            inl (omega arith),
            (inl (omega arith), (inl (omega arith), (inl (omega arith), tt))),
          ),
        ),
      ),
    ),
  ),
)

length-written : (s : Text) → length (written s) ≡ length (shown s) + padding (length (shown s))
length-written s =
    let k : ℕ = padding (length (shown s)) in
    let zeros : List ℕ = replicate k 0 in
    ap length (padded_bytes (red s))
    ∙ omega (arith, length-append (shown s) zeros, length-replicate {A = ℕ} k 0)

written-bytes : (s : Text) → All IsScalar s → All IsByte (written s)
written-bytes s h = subst (All IsByte) (sym (padded_bytes (red s))) (
    All-append IsByte (shown s) (replicate (padding (length (shown s))) 0)
      (as_bytes-bytes (red s) (red-IsScalar s h))
      (All-replicate IsByte (padding (length (shown s))) 0 (omega arith)))

-- The number of words that are written
abbrev pub word_count : Text → ℕ
word_count s = (length (shown s) + 7) / 8

written-words : (s : Text) → length (written s) ≡ 8 * word_count s
unfolding padding
written-words s = omega (arith, length-written s)

-- the bytes of a memory that the text has been written to
overwritten-shown :
    (m : ℕ → ℕ) (region j : ℕ) (s : Text)
    → j < length (shown s)
    → overwritten m (region + 0) (written s) (region + j) ≡ get_or (shown s) j 0
overwritten-shown m region j s h =
    let e : region + j - (region + 0) ≡ j = omega arith in
    ground (
      arith,
      length-written s,
      ap (λ k. get_or (written s) k 0) e,
      ap (λ bs. get_or bs j 0) (padded_bytes (red s)),
      get_or-append (shown s) (replicate (padding (length (shown s))) 0) j,
    )

overwritten-rest :
    (m : ℕ → ℕ) (region b : ℕ) (s : Text)
    → (b < region) ⊎ (region + 8 * word_count s ≤ b)
    → overwritten m (region + 0) (written s) b ≡ m b
overwritten-rest m region b s h = ground (arith, written-words s)

module _ (H : Host) (c : ProcessController) (X : TraceeMachine H c.pid) where
  open X use {
    tracee, memory, registers-poke, poke-IsStopped, byte_at-setregset, setregset-Accessible,
  }
  open tracee use {
    IsStopped, registers, getregset, after_setregset, setregset, registers-setregset,
    setregset-IsStopped,
  }
  open memory use {byte_at, byte_at-lt, Accessible, after_poke, poke}

  abbrev at : H.State → Session H.State
  at s = record { controller = c; os = s }

  -- The registers of a write of the text from the region.
  abbrev pub redirected : ℕ → Text → Registers → Registers
  redirected region s r = record r { regs = update (update r.regs 1 region) 2 (length (shown s)) }

  -- For a stopped tracee, a text that has been read, and a region with accessible room for it
  -- below 2^64, colorize_stderr ends well; the registers name the region and the length of the
  -- text with its two escape sequences, those bytes begin the region, and no byte outside the
  -- written words has changed.
  pub colorize_stderr-shown :
      (region base count : ℕ) (s : H.State) (text : Text)
      → read_string H base count (at s) ≡ (ok text, at s)
      → All IsScalar text
      → IsStopped s
      → region + 8 * word_count text ≤ 2 ^ 64
      → ((j : ℕ) → j < word_count text → Accessible s (region + 8 * j))
      → record {
        next : H.State;
        ends : colorize_stderr H region base count (at s) ≡ (ok tt, at next);
        stopped : IsStopped next;
        registers_eq : registers next ≡ redirected region text (registers s);
        text_eq :
            (j : ℕ) → j < length (shown text) → byte_at next (region + j) ≡ get_or (shown text) j 0;
        rest_eq :
            (b : ℕ)
            → (b < region) ⊎ (region + 8 * word_count text ≤ b)
            → byte_at next b ≡ byte_at s b;
      }
  unfolding colorize_stderr set_registers
  colorize_stderr-shown region base count s text e scalar h fits acc =
      let (l, (stopped, kept)) =
        write_words-Leaves H c memory (λ t. IsStopped t × (registers t ≡ registers s))
          (λ t a w ha q. (poke-IsStopped t a w q.0, registers-poke t a w q.0 ∙ q.1))
          (word_count text) region 0 (written text) s (written-words text)
          (written-bytes text scalar) (omega (arith, written-words text))
          (λ j hj. subst (Accessible s) (omega arith) (acc j hj)) (h, refl) in
      record {
        next = after_setregset l.next (redirected region text (registers s));
        ends = ground (
          arith,
          e,
          get_registers-at H c tracee s h,
          l.ends,
          setregset l.next (redirected region text (registers s)) stopped,
        );
        stopped = setregset-IsStopped l.next _ stopped;
        registers_eq = registers-setregset l.next _ stopped;
        text_eq = λ j hj.
            byte_at-setregset l.next _ (region + j) stopped
            ∙ l.bytes_eq (region + j)
            ∙ overwritten-shown (byte_at s) region j text hj;
        rest_eq = λ b hb.
            byte_at-setregset l.next _ b stopped
            ∙ l.bytes_eq b
            ∙ overwritten-rest (byte_at s) region b text hb;
      }
