-- ===== src/Myprocfs/Lines/Maps.antt =====
-- teleclient/myprocfs.rs: a whole /proc/PID/maps file, read back.
use process_magic.Prelude.{
  ℕ, ◌≡◌, refl, ap, ◌∙◌, false, List, [], ◌∷◌, ◌++◌, map, append_assoc, append-nil, arith, All, ok,
  ◌==◌, ◌-◌,
}
use process_magic.Int.{ℤ}
use process_magic.Text.{Text, codes}
use process_magic.Words.{Profile}
use process_magic.Utf8.{as_bytes}
use process_magic.Utf8.Encoded.{IsScalar, from_utf8-as_bytes, as_bytes-avoids}
use process_magic.Host.{Host, read_file}
use process_magic.Myprocfs.{MemoryMap, parse_map_line}
use process_magic.Myprocfs.Line.{Entry, entry_line, IsWritten, parse_map_line-entry_line}
use process_magic.Myprocfs.Lines.{strip_cr, lines_from, lines, line_text, parse_map_lines}
use process_magic.Myprocfs.Files.{proc_path, read_memory_maps}

-- A text of one line: characters that are neither a newline nor a carriage return.
abbrev pub IsLine : Text → Type 0
IsLine s = All IsScalar s × All (λ c. (c == b'\n') ≡ false) s × All (λ c. (c == b'\r') ≡ false) s

-- The file, line after line.
abbrev pub file_bytes : List Text → List ℕ
file_bytes [] = []
file_bytes (s ∷ rest) = as_bytes s ++ (b'\n' ∷ file_bytes rest)

strip_cr-none : (bs : List ℕ) → All (λ b. (b == b'\r') ≡ false) bs → strip_cr bs ≡ bs
unfolding strip_cr
strip_cr-none [] h = refl
strip_cr-none (b ∷ []) (hb, h) = rw hb
strip_cr-none (b ∷ c ∷ bs) (hb, h) = ap (λ t. b ∷ t) (strip_cr-none (c ∷ bs) h)

lines_from_line :
    (bs current rest : List ℕ)
    → All (λ b. (b == b'\n') ≡ false) bs
    → lines_from current (bs ++ (b'\n' ∷ rest)) ≡ strip_cr (current ++ bs) ∷ lines_from [] rest
unfolding lines_from
lines_from_line [] [] rest h = refl
lines_from_line [] (c ∷ current) rest h = ap (λ t. strip_cr t ∷ lines_from [] rest) (rw append-nil)
lines_from_line (b ∷ bs) current rest (hb, h) = rw hb (
    lines_from_line bs (current ++ (b ∷ [])) rest h
    ∙ ap (λ t. strip_cr t ∷ lines_from [] rest) (rw append_assoc))

lines-file_bytes : (ss : List Text) → All IsLine ss → lines (file_bytes ss) ≡ map as_bytes ss
unfolding lines lines_from
lines-file_bytes [] h = refl
lines-file_bytes (s ∷ ss) ((hc, hn, hr), h) =
    lines_from_line (as_bytes s) [] (file_bytes ss) (as_bytes-avoids b'\n' s (omega arith) hn)
    ∙ ap (λ t. t ∷ lines_from [] (file_bytes ss))
        (strip_cr-none (as_bytes s) (as_bytes-avoids b'\r' s (omega arith) hr))
    ∙ ap (λ t. as_bytes s ∷ t) (lines-file_bytes ss h)

-- The mapping that an entry describes.
abbrev pub mapping : Entry → MemoryMap
mapping e = record {
  base_address = e.start;
  size = e.end - e.start;
  label = e.path;
  readable = e.readable;
  writable = e.writable;
  executable = e.executable;
  private = e.private;
  bytes = [];
}

line_text-as_bytes : (s : Text) → All IsScalar s → line_text (as_bytes s) ≡ ok s
unfolding line_text
line_text-as_bytes s h = rw (line_text, from_utf8-as_bytes s h)

parse_one :
    (p : Profile) (b : List ℕ) (rest : List (List ℕ)) (r : List MemoryMap) (s : Text)
    (m : MemoryMap)
    → line_text b ≡ ok s
    → parse_map_line p s ≡ ok m
    → parse_map_lines p (b ∷ rest) r ≡ parse_map_lines p rest (r ++ (m ∷ []))
unfolding parse_map_lines
parse_one p b rest r s m e1 e2 = ground (arith, e1, e2)

parse_entries :
    (p : Profile) (es : List Entry) (r : List MemoryMap)
    → All IsWritten es
    → All IsLine (map entry_line es)
    → parse_map_lines p (map as_bytes (map entry_line es)) r ≡ ok (r ++ map mapping es)
unfolding parse_map_lines
parse_entries p [] r h l = rw append-nil
parse_entries p (e ∷ es) r (he, h) ((hc, _, _), l) =
    parse_one p _ _ r (entry_line e) (mapping e) (line_text-as_bytes (entry_line e) hc)
      (parse_map_line-entry_line e he p)
    ∙ parse_entries p es (r ++ (mapping e ∷ [])) h l
    ∙ rw append_assoc

-- If the maps file of the process is the UTF-8 text of lines that the kernel writes, each of one
-- line, read_memory_maps returns the mappings that the lines describe, in their order.
pub read_memory_maps-file_bytes :
    (H : Host) (pid : ℤ) (s t : H.State) (es : List Entry)
    → All IsWritten es
    → All IsLine (map entry_line es)
    → H.perform (read_file (proc_path pid (codes "maps"))) s
      ≡ (ok (file_bytes (map entry_line es)), t)
    → read_memory_maps H pid s ≡ (ok (map mapping es), t)
unfolding read_memory_maps
read_memory_maps-file_bytes H pid s t es h l e = ground (
  arith,
  e,
  ap (λ ls. parse_map_lines H.profile ls []) (lines-file_bytes (map entry_line es) l)
      ∙ parse_entries H.profile es [] h l,
)
