-- ===== src/Tests/Filling.antt =====
-- The theorems on maps and on the memory of the tracee, applied to concrete ones.
use process_magic.Prelude.{
  ℕ, ◌+◌, ◌*◌, ◌<◌, ◌≤◌, ◌≡◌, refl, Bool, true, false, List, [], ◌∷◌, ◌++◌, map, arith, All, errno,
  Result, ok, err, get_or, length, ltb, ◌==◌, ◌&&◌, not, inl, ◌⊎◌,
}
use process_magic.Text.{Text, codes, text_eq, format, digits}
use process_magic.Utf8.Encoded.{IsScalar}
use process_magic.Utf8.{as_bytes, encode_char, from_utf8}
use process_magic.Words.{debug}
use process_magic.Host.{Host, Call, Reply, read_file, open_mem}
use process_magic.Myprocfs.{MemoryMap, command_line_args}
use process_magic.Myprocfs.CommandLine.{
  command_line_bytes, terminated, command_line_args-command_line_bytes,
}
use process_magic.Myprocfs.Files.{
  proc_path, read_memory_maps, is_skipped, populate_map, populate_maps, populate_memory,
}
use process_magic.Myprocfs.Filled.{FilledAll, populate_memory_keeps}
use process_magic.Myprocfs.Line.{entry_line}
use process_magic.Myprocfs.Lines.Maps.{IsLine, file_bytes, mapping, read_memory_maps-file_bytes}
use process_magic.Pcontroller.{new}
use process_magic.Pcontroller.Colorize.{red, read_string, colorize_stderr}
use process_magic.Pcontroller.Colorize.Shown.{shown, word_count, redirected, colorize_stderr-shown}
use process_magic.Pcontroller.Regions.{highest_end}
use process_magic.Pcontroller.Regions.Placement.{IsHighest, highest_end-IsHighest}
use process_magic.Spawn.{unmap_maps}
use process_magic.Spawn.Unmapped.{contains, removable, unmap_each, unmap_maps_spares_pc}
use process_magic.Words.{add_u64}
use process_magic.Tests.Machine.{
  Toy, toy_host, toy_machine, tracee_pid, machine_at_rest, registers_at_rest, bytes_of, session,
}
use process_magic.Tests.Reading.{vdso_entry, vdso_entry-IsWritten}

command_line_args_example :
    command_line_args (command_line_bytes (codes "cat" ∷ codes "-n" ∷ []) ++ codes "x")
    ≡ map terminated (codes "cat" ∷ codes "-n" ∷ [])
command_line_args_example =
    command_line_args-command_line_bytes (codes "cat" ∷ codes "-n" ∷ []) (codes "x")
      ((refl, (refl, (refl, tt))), ((refl, (refl, tt)), tt)) (refl, tt)

-- a host on which the maps file can be read
abbrev maps_file : List ℕ
maps_file = file_bytes (map entry_line (vdso_entry ∷ []))

abbrev reading : (c : Call) → Unit {0} → Result (Reply c) × Unit {0}
reading (read_file path) s = (ok maps_file, s)
reading _ s = (err (errno 2), s)

abbrev reading_host : Host
reading_host = record {
  State = Unit {0};
  perform = reading;
  sysno = toy_host.sysno;
  profile = debug;
  fuel = 0;
}

is_plain : ℕ → Bool
is_plain c = ltb c 0xd800 && not (c == b'\n') && not (c == b'\r')

all_plain : Text → Bool
all_plain [] = true
all_plain (c ∷ s) = is_plain c && all_plain s

plain_char :
    (c : ℕ) (b : Bool)
    → (is_plain c && b) ≡ true
    → IsScalar c × ((c == b'\n') ≡ false) × ((c == b'\r') ≡ false) × (b ≡ true)
unfolding is_plain
plain_char c b h = ground arith

plain-IsLine : (s : Text) → all_plain s ≡ true → IsLine s
unfolding all_plain
plain-IsLine [] h = (tt, tt, tt)
plain-IsLine (c ∷ s) h =
    let (scalar, newline, return, rest) = plain_char c (all_plain s) h in
    let (scalars, newlines, returns) = plain-IsLine s rest in
    ((scalar, scalars), (newline, newlines), (return, returns))

vdso_entry-IsLine : IsLine (entry_line vdso_entry)
unfolding format digits is_plain all_plain
vdso_entry-IsLine = plain-IsLine (entry_line vdso_entry) refl

read_memory_maps_example :
    read_memory_maps reading_host tracee_pid tt ≡ (ok (mapping vdso_entry ∷ []), tt)
read_memory_maps_example =
    read_memory_maps-file_bytes reading_host tracee_pid tt tt (vdso_entry ∷ [])
      (vdso_entry-IsWritten, tt) (vdso_entry-IsLine, tt) refl

-- a map of a hole, and one of data
abbrev two_maps : List MemoryMap
two_maps = record (mapping vdso_entry) { readable = false } ∷ mapping vdso_entry ∷ []

abbrev two_filled : List MemoryMap
two_filled =
    record (mapping vdso_entry) { readable = false }
    ∷ record (mapping vdso_entry) { bytes = 0x2a ∷ [] }
    ∷ []

maps_filled :
    populate_memory toy_host tracee_pid two_maps machine_at_rest ≡ (ok two_filled, machine_at_rest)
unfolding populate_memory populate_maps populate_map is_skipped text_eq
maps_filled = refl

populate_memory_keeps_example :
    (file : ℕ) × ((toy_host.perform
        (open_mem (proc_path tracee_pid (codes "mem")))
        machine_at_rest).0
      ≡ ok file)
    × FilledAll toy_host file two_maps two_filled
populate_memory_keeps_example =
    populate_memory_keeps toy_host tracee_pid two_maps two_filled machine_at_rest machine_at_rest
      maps_filled

highest_end_example :
    (h : ℕ) × (highest_end (add_u64 debug) two_maps 0 ≡ ok h) × IsHighest 0 two_maps h
highest_end_example = highest_end-IsHighest debug two_maps 0 (omega arith, (omega arith, tt))

unmap_maps_example :
    (unmap_maps toy_host tracee_pid 200 two_maps machine_at_rest
      ≡ unmap_each toy_host tracee_pid (removable 200 two_maps) machine_at_rest)
    × All (λ m. contains m 200 ≡ false) (removable 200 two_maps)
unmap_maps_example =
    unmap_maps_spares_pc toy_host tracee_pid 200 two_maps machine_at_rest
      (omega arith, (omega arith, tt))

abbrev colour_text : Text
colour_text = codes "ABC"

colour_read :
    read_string toy_host 100 3 (session machine_at_rest) ≡ (ok colour_text, session machine_at_rest)
unfolding read_string from_utf8
colour_read = refl

colorize_stderr_example : record {
  next : Toy;
  ends : colorize_stderr toy_host 4096 100 3 (session machine_at_rest) ≡ (ok tt, session next);
  stopped : next.stopped ≡ true;
  registers_eq :
      next.at_regs
      ≡ redirected toy_host
          (new tracee_pid)
          (toy_machine tracee_pid)
          4096
          colour_text
          registers_at_rest;
  text_eq :
      (j : ℕ)
      → j < length (shown colour_text)
      → bytes_of next (4096 + j) ≡ get_or (shown colour_text) j 0;
  rest_eq :
      (b : ℕ)
      → (b < 4096) ⊎ (4096 + 8 * word_count colour_text ≤ b)
      → bytes_of next b ≡ bytes_of machine_at_rest b;
}
unfolding red as_bytes encode_char
colorize_stderr_example =
    colorize_stderr-shown toy_host (new tracee_pid) (toy_machine tracee_pid) 4096 100 3
      machine_at_rest colour_text colour_read
      (inl (omega arith), (inl (omega arith), (inl (omega arith), tt))) refl (omega arith)
      (λ j h. refl)
