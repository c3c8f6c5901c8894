-- ===== src/Myprocfs/Lines.antt =====
-- teleclient/myprocfs.rs: the text of /proc/PID/maps as lines, and the lines as memory maps.
pub mod Maps
use process_magic.Prelude.{
  ℕ, Option, none, some, List, [], ◌∷◌, ◌++◌, Error, errno, Result, ok, err, ◌>>=◌, ◌==◌,
  if◌then◌else◌,
}
use process_magic.Text.{Text}
use process_magic.Utf8.{from_utf8}
use process_magic.Words.{Profile}
use process_magic.Myprocfs.{MemoryMap, parse_map_line}

-- The errno of a line that is not UTF-8: `InvalidData` of the standard library.
abbrev invalid_data : Error
invalid_data = errno 0

strip_cr : List ℕ → List ℕ
strip_cr [] = []
strip_cr (b ∷ []) = if b == b'\r' then [] else b ∷ []
strip_cr (b ∷ c ∷ bs) = b ∷ strip_cr (c ∷ bs)

-- `reader.lines()`, as bytes: a newline, or a carriage return with it, ends a line, and behind the
-- last newline there is no empty line. `current` is the line so far.
lines_from : List ℕ → List ℕ → List (List ℕ)
lines_from [] [] = []
lines_from (c ∷ current) [] = (c ∷ current) ∷ []
lines_from current (b ∷ bs) =
    if b == b'\n' then strip_cr current ∷ lines_from [] bs else lines_from (current ++ (b ∷ [])) bs

unfoldable pub lines : List ℕ → List (List ℕ)
unfolding lines_from strip_cr
lines bytes = lines_from [] bytes

-- A line as text, or the error of `BufRead::lines`.
unfoldable pub line_text : List ℕ → Result Text
line_text bytes = elim (from_utf8 bytes) [ none ↦ err invalid_data | some s ↦ ok s ]

-- The loop of `read_memory_maps`
unfoldable pub parse_map_lines : Profile → List (List ℕ) → List MemoryMap → Result (List MemoryMap)
parse_map_lines profile [] r = ok r
parse_map_lines profile (bytes ∷ rest) r = do
  line ← line_text bytes
  memory_map ← parse_map_line profile line
  parse_map_lines profile rest (r ++ (memory_map ∷ []))
