-- ===== src/Myprocfs/Fits.antt =====
-- teleclient/myprocfs.rs: a map that is read in a debug build does not run past 2^64.
use process_magic.Prelude.{
  ℕ, ◌+◌, ◌*◌, ◌^◌, ◌≤◌, ◌<◌, ◌≡◌, arith, Bool, true, false, List, [], ◌∷◌, ◌++◌, All, All-append,
  IntErrorKind, Error, Option, none, some, String, Arg, Result, ok, err, panic, unfinished, map_err,
  leb, leb→le, ◌==◌, ◌||◌, if◌then◌else◌, Bool-cases, inl, inr,
}
use process_magic.Int.{ℤ}
use process_magic.Text.{Text, codes, splitn, is_whitespace, to_digit, scan, parse_unsigned, max_u64}
use process_magic.Words.{debug, sub_u64}
use process_magic.Host.{Host, read_file}
use process_magic.Host.Action
use process_magic.Host.Action.{Holds}
use process_magic.Host.Action.Ensures.{Ensures, Ensures-then, Ensures-any}
use process_magic.Myprocfs.{MemoryMap, parse_byte_range, parse_map_line, parse_permissions, index}
use process_magic.Myprocfs.Lines.{line_text, parse_map_lines, lines}
use process_magic.Myprocfs.Files.{read_memory_maps, proc_path}

abbrev pub Fits : MemoryMap → Type 0
Fits m = m.base_address + m.size < 2 ^ 64

Holds-map_err :
    {A : Type 0} (P : A → Type 0) (s : String) (args : List Arg) (r : Result A)
    → Holds P r
    → Holds P (map_err s args r)
Holds-map_err P s args (ok a) h = h
Holds-map_err P s args (err e) h = tt
Holds-map_err P s args panic h = tt
Holds-map_err P s args unfinished h = tt

Holds-if :
    {A : Type 0} (P : A → Type 0) (b : Bool) (r q : Result A)
    → Holds P r
    → Holds P q
    → Holds P (if b then r else q)
Holds-if P true r q hr hq = hr
Holds-if P false r q hr hq = hq

scan-le :
    (radix limit : ℕ) (s : Text) (n : ℕ) → n ≤ limit → Holds (λ x. x ≤ limit) (scan radix limit s n)
unfolding scan
scan-le radix limit [] n h = h
scan-le radix limit (c ∷ s) n h = by_digit (to_digit radix c) (λ m. scan-le radix limit s m)
  where
    by_digit :
        (o : Option ℕ)
        → ((m : ℕ) → m ≤ limit → Holds (λ x. x ≤ limit) (scan radix limit s m))
        → Holds
            (λ x. x ≤ limit)
            (elim o [
              | none ↦ err (Error.parse_int IntErrorKind.invalid_digit)
              | some x ↦
                  let rest = scan radix limit s (n * radix + x) in
                  if leb (n * radix + x) limit
                  then rest
                  else err (Error.parse_int IntErrorKind.pos_overflow)
            ])
    by_digit none k = tt
    by_digit (some x) k = elim (Bool-cases (leb (n * radix + x) limit)) [
      | inl e ↦ rw e (k (n * radix + x) (leb→le _ _ e))
      | inr e ↦ rw e tt
    ]

parse_unsigned-le :
    (radix limit : ℕ) (s : Text) → Holds (λ x. x ≤ limit) (parse_unsigned radix limit s)
unfolding parse_unsigned
parse_unsigned-le radix limit [] = tt
parse_unsigned-le radix limit (c ∷ []) =
    Holds-if (λ x. x ≤ limit) ((c == b'+') || (c == b'-'))
      (err (Error.parse_int IntErrorKind.invalid_digit)) (scan radix limit (c ∷ []) 0) tt
      (scan-le radix limit (c ∷ []) 0 (omega arith))
parse_unsigned-le radix limit (c ∷ d ∷ s) =
    Holds-if (λ x. x ≤ limit) (c == b'+') (scan radix limit (d ∷ s) 0)
      (scan radix limit (c ∷ d ∷ s) 0) (scan-le radix limit (d ∷ s) 0 (omega arith))
      (scan-le radix limit (c ∷ d ∷ s) 0 (omega arith))

-- A difference that does not panic in a debug build is the exact one.
sub_u64-debug : (a b : ℕ) → Holds (λ n. b + n ≡ a) (sub_u64 debug a b)
unfolding sub_u64
sub_u64-debug a b = elim (Bool-cases (leb b a)) [
  | inl e ↦ rw e (ground (arith, leb→le b a e))
  | inr e ↦ rw e tt
]

abbrev RangeFits : ℕ × ℕ → Type 0
RangeFits range = range.0 + range.1 < 2 ^ 64

parse_byte_range-RangeFits : (s : Text) → Ensures RangeFits (parse_byte_range debug s)
unfolding parse_byte_range
parse_byte_range-RangeFits s = Ensures-any RangeFits _ _ λ first.
    Ensures-then RangeFits (λ x. x ≤ max_u64) _ _ (parsed _ first)
      λ start _. Ensures-any RangeFits _ _ λ second.
        Ensures-then RangeFits (λ x. x ≤ max_u64) _ _ (parsed _ second)
          λ end le.
            Ensures-then RangeFits (λ n. start + n ≡ end) _ _ (sub_u64-debug end start)
              λ size e. record { holds = omega (arith, e, le) }
  where
    parsed :
        (label : String) (text : Text)
        → Holds (λ x. x ≤ max_u64) (map_err label [] (parse_unsigned 16 max_u64 text))
    parsed label text =
        Holds-map_err (λ x. x ≤ max_u64) label [] (parse_unsigned 16 max_u64 text)
          (parse_unsigned-le 16 max_u64 text)

parse_map_line-Fits : (line : Text) → Ensures Fits (parse_map_line debug line)
unfolding parse_map_line
parse_map_line-Fits line = Ensures-any Fits (index parts 0) _ λ byte_range.
    Ensures-any Fits (index parts 1) _ λ permissions. Ensures-any Fits (index parts 5) _ λ label.
      Ensures-then Fits RangeFits (parse_byte_range debug byte_range) _
        ((parse_byte_range-RangeFits byte_range).holds)
        λ range h. Ensures-any Fits (parse_permissions permissions) _ λ flags. record { holds = h }
  where
    parts : List Text
    parts = splitn is_whitespace 6 line

parse_map_lines-Fits :
    (rest : List (List ℕ)) (r : List MemoryMap)
    → All Fits r
    → Ensures (All Fits) (parse_map_lines debug rest r)
unfolding parse_map_lines
parse_map_lines-Fits [] r h = record { holds = h }
parse_map_lines-Fits (bytes ∷ rest) r h = Ensures-any (All Fits) (line_text bytes) _ λ line.
    Ensures-then (All Fits) Fits (parse_map_line debug line) _ ((parse_map_line-Fits line).holds)
      λ m hm. parse_map_lines-Fits rest (r ++ (m ∷ [])) (All-append Fits r (m ∷ []) h (hm, tt))

-- In a debug build, no map that read_memory_maps returns runs past 2^64, whatever the file holds.
pub read_memory_maps-Fits :
    (H : Host) (pid : ℤ) (s : H.State)
    → H.profile ≡ debug
    → Holds (All Fits) (read_memory_maps H pid s).0
unfolding read_memory_maps
read_memory_maps-Fits H pid s e =
    Action.Holds-any (All Fits) (H.perform (read_file (proc_path pid (codes "maps"))))
      (λ bytes. Action.from (parse_map_lines H.profile (lines bytes) [])) s
      λ bytes t. rw e ((parse_map_lines-Fits (lines bytes) [] tt).holds)
