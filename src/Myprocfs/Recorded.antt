-- ===== src/Myprocfs/Recorded.antt =====
-- teleclient/myprocfs.rs: the bytes that `populate_memory` records of a stopped process.
use process_magic.Prelude.{
  ℕ, ◌+◌, ◌<◌, ◌≤◌, ◌≡◌, refl, ap, arith, false, List, [], ◌∷◌, ◌++◌, map, length, get_or, All,
  All-append, ok, Bool-cases, inl, inr, if◌then◌else◌,
}
use process_magic.Int.{ℤ}
use process_magic.Text.{Text, codes, splitn, is_whitespace}
use process_magic.Words.{Profile}
use process_magic.Words.Bytes.{IsByte, slice, length-slice, get_or-slice, slice-IsByte}
use process_magic.Host
use process_magic.Host.{Host, open_mem, read_exact, read_file}
use process_magic.Host.Action
use process_magic.Host.Action.{Holds-ok}
use process_magic.Host.Action.Ensures.{Ensures, Ensures-then, Ensures-any}
use process_magic.Myprocfs.{MemoryMap, parse_map_line, parse_byte_range, parse_permissions, index}
use process_magic.Myprocfs.Lines.{line_text, parse_map_lines, lines}
use process_magic.Myprocfs.Files.{
  proc_path, is_skipped, populate_map, populate_maps, populate_memory, read_memory_maps,
}

-- What the code relies on of proc(5) and lseek(2): the file /proc/PID/mem of a process that does not
-- run has the bytes of its memory, each at its address, and those of a region that can be read are
-- read from the file's offset on, which moves behind them.
pub record MemoryFile (H : Host) : Type 1 where
  pub memory : ℕ → ℕ
  pub memory-IsByte : (a : ℕ) → IsByte (memory a)
  pub IsReadable : ℕ → ℕ → Type 0
  -- the descriptor is of the file, at an offset
  pub At : H.State → ℕ → ℕ → Type 0
  pub after_seek : H.State → ℕ → ℕ → H.State
  pub seeks :
      (s : H.State) (fd o a : ℕ)
      → At s fd o
      → (H.perform (Host.seek fd a) s ≡ (ok tt, after_seek s fd a)) × At (after_seek s fd a) fd a
  pub after_read : H.State → ℕ → ℕ → H.State
  pub reads :
      (s : H.State) (fd a n : ℕ)
      → At s fd a
      → IsReadable a n
      → (H.perform (read_exact fd n) s ≡ (ok (slice memory a n), after_read s fd n))
        × At (after_read s fd n) fd (a + n)

module _ (H : Host) (F : MemoryFile H) where
  open F use {memory, memory-IsByte, IsReadable, At, after_seek, seeks, after_read, reads}

  -- a map with what is recorded of it
  abbrev pub recorded : MemoryMap → MemoryMap
  recorded m = record m {
    bytes = if is_skipped m then m.bytes else slice memory m.base_address m.size;
  }

  -- The bytes of a map that is not skipped can be read.
  abbrev pub CanRecord : MemoryMap → Type 0
  CanRecord m = is_skipped m ≡ false → IsReadable m.base_address m.size

  pub recorded-length : (m : MemoryMap) → m.bytes ≡ [] → length (recorded m).bytes ≤ m.size
  recorded-length m e = elim (Bool-cases (is_skipped m)) [
    | inl skipped ↦ rw (skipped, e) (omega arith)
    | inr wanted ↦
        let n : length (slice memory m.base_address m.size) ≡ m.size =
          length-slice memory m.base_address m.size in
        rw wanted (omega (arith, n))
  ]

  pub recorded-IsByte : (m : MemoryMap) → m.bytes ≡ [] → All IsByte (recorded m).bytes
  recorded-IsByte m e = elim (Bool-cases (is_skipped m)) [
    | inl skipped ↦ rw (skipped, e) tt
    | inr wanted ↦ rw wanted (slice-IsByte memory m.base_address m.size memory-IsByte)
  ]

  -- what a map that is not skipped records
  pub recorded-memory :
      (m : MemoryMap) (i : ℕ)
      → is_skipped m ≡ false
      → i < m.size
      → (i < length (recorded m).bytes)
        × (get_or (recorded m).bytes i 0 ≡ memory (m.base_address + i))
  recorded-memory m i wanted h =
      let n : length (slice memory m.base_address m.size) ≡ m.size =
        length-slice memory m.base_address m.size in
      rw wanted (omega (arith, n, h), get_or-slice memory m.base_address m.size i h)

  populate_map-recorded :
      (m : MemoryMap) (s : H.State) (fd o : ℕ)
      → CanRecord m
      → At s fd o
      → (t : H.State) × (p : ℕ) × (populate_map H fd m s ≡ (ok (recorded m), t)) × At t fd p
  unfolding populate_map
  populate_map-recorded m s fd o can a = elim (Bool-cases (is_skipped m)) [
    | inl skipped ↦ (s, o, ground (arith, skipped), a)
    | inr wanted ↦
        let (sought, b) = seeks s fd o m.base_address a in
        let t : H.State = after_seek s fd m.base_address in
        let (read, c) = reads t fd m.base_address m.size b (can wanted) in
        (after_read t fd m.size, m.base_address + m.size, ground (arith, wanted, sought, read), c)
  ]

  populate_maps-recorded :
      (maps : List MemoryMap) (s : H.State) (fd o : ℕ)
      → All CanRecord maps
      → At s fd o
      → (t : H.State) × (populate_maps H fd maps s ≡ (ok (map recorded maps), t))
  unfolding populate_maps
  populate_maps-recorded [] s fd o can a = (s, refl)
  populate_maps-recorded (m ∷ maps) s fd o (can, cans) a =
      let (t, p, e, b) = populate_map-recorded m s fd o can a in
      let (u, f) = populate_maps-recorded maps t fd p cans b in (u, ground (arith, e, f))

  -- If the file of the process's memory can be opened, and every map that is neither unreadable nor
  -- [vvar] can be read, populate_memory returns each map with the bytes of the process's memory at its
  -- place, and one that is unreadable or [vvar] as it was.
  pub populate_memory-recorded :
      (pid : ℤ) (maps : List MemoryMap) (s t : H.State) (fd o : ℕ)
      → H.perform (open_mem (proc_path pid (codes "mem"))) s ≡ (ok fd, t)
      → At t fd o
      → All CanRecord maps
      → (u : H.State) × (populate_memory H pid maps s ≡ (ok (map recorded maps), u))
  unfolding populate_memory
  populate_memory-recorded pid maps s t fd o e a can =
      let (u, f) = populate_maps-recorded maps t fd o can a in (u, ground (arith, e, f))

abbrev pub IsUnread : MemoryMap → Type 0
IsUnread m = m.bytes ≡ []

parse_map_line-IsUnread :
    (profile : Profile) (line : Text) → Ensures IsUnread (parse_map_line profile line)
unfolding parse_map_line
parse_map_line-IsUnread profile line = Ensures-any IsUnread (index parts 0) _ λ byte_range.
    Ensures-any IsUnread (index parts 1) _ λ permissions.
      Ensures-any IsUnread (index parts 5) _ λ label.
        Ensures-any IsUnread (parse_byte_range profile byte_range) _ λ range.
          Ensures-any IsUnread (parse_permissions permissions) _ λ flags. record { holds = refl }
  where
    parts : List Text
    parts = splitn is_whitespace 6 line

parse_map_lines-IsUnread :
    (profile : Profile) (rest : List (List ℕ)) (r : List MemoryMap)
    → All IsUnread r
    → Ensures (All IsUnread) (parse_map_lines profile rest r)
unfolding parse_map_lines
parse_map_lines-IsUnread profile [] r h = record { holds = h }
parse_map_lines-IsUnread profile (bytes ∷ rest) r h =
    Ensures-any (All IsUnread) (line_text bytes) _ λ line.
      Ensures-then (All IsUnread) IsUnread (parse_map_line profile line) _
        ((parse_map_line-IsUnread profile line).holds)
        λ m hm.
          parse_map_lines-IsUnread profile rest (r ++ (m ∷ []))
            (All-append IsUnread r (m ∷ []) h (hm, tt))

-- A map that has been read from the maps file has no bytes yet.
pub read_memory_maps-IsUnread :
    (H : Host) (pid : ℤ) (maps : List MemoryMap) (s t : H.State)
    → read_memory_maps H pid s ≡ (ok maps, t)
    → All IsUnread maps
read_memory_maps-IsUnread H pid maps s t e =
    Holds-ok (All IsUnread) (read_memory_maps H pid s).0 maps
      (unfold read_memory_maps in
        Action.Holds-any (All IsUnread) (H.perform (read_file (proc_path pid (codes "maps"))))
          (λ bytes. Action.from (parse_map_lines H.profile (lines bytes) [])) s
          λ bytes u. (parse_map_lines-IsUnread H.profile (lines bytes) [] tt).holds)
      (ap (λ o. o.0) e)
