-- ===== src/Procinfo/Tty.antt =====
-- The device number of a terminal, and the field of /proc/PID/stat that it is read from.
use process_magic.Prelude.{
  ℕ, ◌+◌, ◌-◌, ◌*◌, ◌/◌, ◌%◌, ◌^◌, ◌<◌, ◌≡◌, ◌∙◌, arith, List, [], ◌∷◌, panic, All, length, ltb,
  ◌++◌, ◌>>=◌, true, false, if◌then◌else◌,
}
use process_magic.Int.{ℤ}
use process_magic.Text.{Text, parse_i32}
use process_magic.Myprocfs.{index}
use process_magic.Procinfo.{
  stat_tty_nr, split_ascii_whitespace, end_of_comm, ends_with_paren, i32_bits, tty_major, tty_minor,
}
use process_magic.Words.Bits.{and_mask, or_high, and_field}

-- `new_encode_dev` of the kernel, which /proc/PID/stat prints: the low byte of the minor number, the
-- major number, and the rest of the minor number.
abbrev pub encode_dev : ℕ → ℕ → ℕ
encode_dev major minor = minor % 256 + (major * 256 + minor / 256 * 2 ^ 20)

-- From the 32 bits of a device number as the kernel encodes it, with the major below 4096 and the
-- minor below 2^20, both numbers are read back, also where the bits are printed as a negative
-- number.
pub tty-encode_dev :
    (tty_nr : ℤ) (major minor : ℕ)
    → major < 4096
    → minor < 2 ^ 20
    → i32_bits tty_nr ≡ encode_dev major minor
    → (tty_major tty_nr ≡ major) × (tty_minor tty_nr ≡ minor)
unfolding tty_major tty_minor
tty-encode_dev tty_nr major minor h1 h2 e = (
  rw e (omega (arith, and_field 8 12 (encode_dev major minor))),
  rw e (
      rw (and_mask 8 (encode_dev major minor), and_field 8 12 (encode_dev major minor / 2 ^ 12))
        (or_high 8 (encode_dev major minor / 2 ^ 12 / 2 ^ 8 % 2 ^ 12)
            (encode_dev major minor % 2 ^ 8) (omega arith)
          ∙ omega arith)),
)

end_of_comm_words :
    (i : ℕ) (ws : List Text) (last : Text) (rest : List Text)
    → All (λ w. ends_with_paren w ≡ false) ws
    → ends_with_paren last ≡ true
    → end_of_comm i (ws ++ (last ∷ rest)) ≡ i + length ws
unfolding end_of_comm
end_of_comm_words i [] last rest h e = rw e (omega arith)
end_of_comm_words i (w ∷ ws) last rest (hw, h) e =
    rw (hw, end_of_comm_words (i + 1) ws last rest h e) (omega arith)

-- For a stat line whose words are the pid, n words that do not end with a closing parenthesis,
-- one that does, and the rest, the terminal number is read from word 6 - n of the line, counted
-- from 0, and there is a panic if n is more than 6.
pub stat_tty_nr_field :
    (s pid : Text) (ws : List Text) (last : Text) (rest : List Text)
    → split_ascii_whitespace s ≡ pid ∷ (ws ++ (last ∷ rest))
    → All (λ w. ends_with_paren w ≡ false) ws
    → ends_with_paren last ≡ true
    → stat_tty_nr s ≡ (
        if ltb 6 (length ws)
        then panic
        else index (pid ∷ (ws ++ (last ∷ rest))) (6 - length ws) >>= parse_i32)
unfolding stat_tty_nr
stat_tty_nr_field s pid ws last rest e h hl =
    let count : end_of_comm 1 (ws ++ (last ∷ rest)) - 1 ≡ length ws =
      omega (arith, end_of_comm_words 1 ws last rest h hl) in
    rw (e, count) (ground arith)

-- For a name of one word the word is the terminal.
pub stat_tty_nr_plain :
    (s pid comm state ppid pgrp session tty : Text) (rest : List Text)
    → split_ascii_whitespace s ≡ pid ∷ comm ∷ state ∷ ppid ∷ pgrp ∷ session ∷ tty ∷ rest
    → ends_with_paren comm ≡ true
    → stat_tty_nr s ≡ parse_i32 tty
stat_tty_nr_plain s pid comm state ppid pgrp session tty rest e h =
    stat_tty_nr_field s pid [] comm (state ∷ ppid ∷ pgrp ∷ session ∷ tty ∷ rest) e tt h

-- For a stat line whose process name has two words, the number that is read as the terminal is
-- the process group, whatever the terminal is.
pub stat_tty_nr_spaced :
    (s pid first last state ppid pgrp session tty : Text) (rest : List Text)
    → split_ascii_whitespace s ≡ pid ∷ first ∷ last ∷ state ∷ ppid ∷ pgrp ∷ session ∷ tty ∷ rest
    → ends_with_paren first ≡ false
    → ends_with_paren last ≡ true
    → stat_tty_nr s ≡ parse_i32 pgrp
stat_tty_nr_spaced s pid first last state ppid pgrp session tty rest e h hl =
    stat_tty_nr_field s pid (first ∷ []) last (state ∷ ppid ∷ pgrp ∷ session ∷ tty ∷ rest) e (h, tt)
      hl
