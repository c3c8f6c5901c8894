-- ===== src/Myprocfs/Files.antt =====
-- teleclient/myprocfs.rs: the functions that read the files of /proc/PID.
use process_magic.Prelude.{
  ℕ, Bool, ◌||◌, not, List, [], ◌∷◌, ◌++◌, Result, ok, err, panic, unfinished, if◌then◌else◌,
}
use process_magic.Int.{ℤ}
use process_magic.Text.{Text, codes, show_i32, text_eq}
use process_magic.Host.{Host, read_file, open_mem, seek, read_exact}
use process_magic.Host.Action.{Action, pure, from, labelled, ◌>>=◌, ◌>>◌}
use process_magic.Myprocfs.{MemoryMap, command_line_args}
use process_magic.Myprocfs.Lines.{lines, parse_map_lines}

-- `format!("/proc/{}/…", pid)`
abbrev pub proc_path : ℤ → Text → Text
proc_path pid name = codes "/proc/" ++ (show_i32 pid ++ (b'/' ∷ name))

-- A mapping whose memory is not read: [vvar] cannot be read via procfs.
unfoldable pub is_skipped : MemoryMap → Bool
unfolding text_eq
is_skipped memory_map = not memory_map.readable || text_eq memory_map.label (codes "[vvar]")

-- `if r.is_ok() { map.data = buf; }`
abbrev pub with_bytes : MemoryMap → Result (List ℕ) → Result MemoryMap
with_bytes memory_map (ok buf) = ok (record memory_map { bytes = buf })
with_bytes memory_map (err e) = ok memory_map
with_bytes memory_map panic = panic
with_bytes memory_map unfinished = unfinished

module _ (H : Host) where
  unfoldable pub get_command_line : ℤ → Action H.State (List (List ℕ))
  get_command_line pid = do
    buf ← H.perform (read_file (proc_path pid (codes "cmdline")))
    pure (command_line_args buf)

  unfoldable pub read_memory_maps : ℤ → Action H.State (List MemoryMap)
  read_memory_maps pid = do
    bytes ← H.perform (read_file (proc_path pid (codes "maps")))
    from (parse_map_lines H.profile (lines bytes) [])

  -- One round of the loop of `populate_memory`: the bytes, or the map as it was if they cannot be read.
  unfoldable pub populate_map : ℕ → MemoryMap → Action H.State MemoryMap
  populate_map file memory_map = if is_skipped memory_map then pure memory_map else do
    labelled "unable to seek" (H.perform (seek file memory_map.base_address))
    λ s. let (r, t) = H.perform (read_exact file memory_map.size) s in (with_bytes memory_map r, t)

  unfoldable pub populate_maps : ℕ → List MemoryMap → Action H.State (List MemoryMap)
  populate_maps file [] = pure []
  populate_maps file (memory_map ∷ maps) = do
    filled ← populate_map file memory_map
    rest ← populate_maps file maps
    pure (filled ∷ rest)

  unfoldable pub populate_memory : ℤ → List MemoryMap → Action H.State (List MemoryMap)
  populate_memory pid maps = do
    file ← H.perform (open_mem (proc_path pid (codes "mem")))
    populate_maps file maps
