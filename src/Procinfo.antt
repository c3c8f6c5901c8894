-- ===== src/Procinfo.antt =====
-- proctool/procinfo.rs: what /proc says of the processes. The texts of /proc/PID/status and
-- /proc/PID/stat are read here; the commands over all processes are in the modules below.
pub mod Listing
pub mod Tty
use process_magic.Prelude.{
  ℕ, zero, suc, ◌+◌, ◌-◌, ◌*◌, ◌/◌, ◌%◌, ◌^◌, Bool, true, false, ◌&&◌, ◌||◌, not, List, [], ◌∷◌,
  ◌++◌, Option, none, some, Error, Result, ok, err, panic, unwrap, ◌>>=◌, length, get_elem?, drop,
  ltb, ◌==◌, if◌then◌else◌,
}
use Prim.Native.Nat.{bit_and, bit_or}
use mathlib.Core.List.{reverse}
use process_magic.Int.{ℤ, pos, negsuc}
use process_magic.Text.{Text, codes, text_eq, show_dec, parse_i32, parse_unsigned}
use process_magic.Myprocfs.{index}

pub record ProcessInfo : Type 0 where
  pub name : Text
  pub pid : ℤ
  pub ppid : ℤ
  pub pgid : ℤ
  pub uid : ℕ
  pub tty : Option Text

-- `HashMap<String, String>`, the last inserted entry first.
abbrev pub Attributes : Type 0
Attributes = List (Text × Text)

unfoldable pub get : Attributes → Text → Option Text
get [] key = none
get ((k, v) ∷ attributes) key = if text_eq k key then some v else get attributes key

-- `line.split_once(":\t")`
unfoldable pub split_once : Text → Option (Text × Text)
split_once [] = none
split_once (c ∷ []) = none
split_once (c ∷ d ∷ s) =
    if (c == b':') && (d == 9)
    then some ([], s)
    else elim (split_once (d ∷ s)) [ none ↦ none | some (left, right) ↦ some (c ∷ left, right) ]

-- The loop over the lines of the status file. A line without the separator panics.
unfoldable pub read_attributes : List Text → Attributes → Result Attributes
read_attributes [] attributes = ok attributes
read_attributes (line ∷ lines) attributes = do
  parts ← unwrap (split_once line)
  read_attributes lines (parts ∷ attributes)

unfoldable pub is_ascii_whitespace : ℕ → Bool
is_ascii_whitespace c = (c == 32) || (c == 9) || (c == 10) || (c == 12) || (c == 13)

-- The words that follow, where `current` is the word so far.
words_from : Text → Text → List Text
words_from current [] = if text_eq current [] then [] else current ∷ []
words_from current (c ∷ s) =
    let more = words_from (current ++ (c ∷ [])) s in
    let next = words_from [] s in
    if is_ascii_whitespace c then (if text_eq current [] then next else current ∷ next) else more

-- `s.split_ascii_whitespace().collect()`
unfoldable pub split_ascii_whitespace : Text → List Text
unfolding words_from
split_ascii_whitespace s = words_from [] s

-- `s.ends_with(")")`
unfoldable pub ends_with_paren : Text → Bool
ends_with_paren s = elim (reverse s) [ [] ↦ false | c ∷ rest ↦ c == b')' ]

-- `while i < parts.len() && !parts[i].ends_with(")") { i += 1; }`, where `rest` is `parts[i..]`
unfoldable pub end_of_comm : ℕ → List Text → ℕ
end_of_comm i [] = i
end_of_comm i (part ∷ rest) = if ends_with_paren part then i else end_of_comm (i + 1) rest

-- The part of `read_proc_stat` behind the read. `6 - offset` is computed on `usize`: below zero it
-- panics, or wraps around and is out of range.
unfoldable pub stat_tty_nr : Text → Result ℤ
unfolding end_of_comm
stat_tty_nr s = do
  let parts = split_ascii_whitespace s
  let offset = end_of_comm 1 (drop 1 parts) - 1
  field ← if ltb 6 offset then panic else index parts (6 - offset)
  parse_i32 field

-- The 32 bits of an `i32`
abbrev pub i32_bits : ℤ → ℕ
i32_bits (pos n) = n
i32_bits (negsuc n) = 2 ^ 32 - 1 - n

-- `(tty_nr & 0xfff00) >> 8`, and `(tty_nr & 0x000ff) | ((tty_nr >> 12) & 0xfff00)`. The sign bits that
-- an arithmetic shift brings in are masked away.
unfoldable pub tty_major : ℤ → ℕ
tty_major tty_nr = bit_and (i32_bits tty_nr) 0xfff00 / 2 ^ 8

unfoldable pub tty_minor : ℤ → ℕ
tty_minor tty_nr =
    bit_or (bit_and (i32_bits tty_nr) 0x000ff) (bit_and (i32_bits tty_nr / 2 ^ 12) 0xfff00)

unfoldable pub tty_path : ℤ → Option Text
unfolding tty_major tty_minor
tty_path tty_nr =
    if tty_major tty_nr == 136
    then some (codes "/dev/pts/" ++ show_dec (tty_minor tty_nr))
    else none

-- `.parse::<…>().unwrap()`
abbrev pub expect {ℓ} : {A : Type ℓ} → Result A → Result A
expect (ok a) = ok a
expect (err e) = panic
expect panic = panic
expect Result.unfinished = Result.unfinished

-- The part of `get_process_info` behind the reads of the files.
unfoldable pub process_info : ℤ → Attributes → ℤ → Result ProcessInfo
unfolding get
process_info pid attributes tty_nr = do
  name ← unwrap (get attributes (codes "Name"))
  ppid_text ← unwrap (get attributes (codes "PPid"))
  ppid ← expect (parse_i32 ppid_text)
  pgid_text ← unwrap (get attributes (codes "NSpgid"))
  pgid ← expect (parse_i32 pgid_text)
  uid_text ← unwrap (get attributes (codes "Uid"))
  first ← index (split_ascii_whitespace uid_text) 0
  uid ← expect (parse_unsigned 10 (2 ^ 32 - 1) first)
  ok (record { name = name; pid = pid; ppid = ppid; pgid = pgid; uid = uid; tty = tty_path tty_nr })
