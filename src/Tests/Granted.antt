-- ===== src/Tests/Granted.antt =====
-- More theorems, applied on the machine that grants what is asked of it.
use process_magic.Prelude.{
  ℕ, ◌≡◌, refl, arith, true, false, some, [], ◌∷◌, ◌++◌, map, All, context, errno, ok, err,
  replicate,
}
use mathlib.Core.List.{reverse}
use process_magic.Int.{pos}
use process_magic.Text.{Text, codes, text_eq, format, parse_i32}
use process_magic.Utf8.{as_bytes, from_utf8}
use process_magic.Host.{RegisterSet, open_fd, write_only, tiocsti, close, nt_prstatus, nt_prfpreg}
use process_magic.Host.Action.{Holds, ◌>>◌}
use process_magic.Host.Mapping.{apart}
use process_magic.Host.Log.{logged}
use process_magic.Myprocfs.{MemoryMap}
use process_magic.Myprocfs.Files.{proc_path, read_memory_maps}
use process_magic.Myprocfs.Fits.{Fits, read_memory_maps-Fits}
use process_magic.Myprocfs.Lines.{lines, line_text, parse_map_lines}
use process_magic.Procinfo.{
  ProcessInfo, read_attributes, split_once, stat_tty_nr, split_ascii_whitespace,
  is_ascii_whitespace, ends_with_paren, process_info, tty_path,
}
use process_magic.Procinfo.Listing.{get_process_info, text_lines, tree_lines, print_process_tree}
use process_magic.Procinfo.Listing.Ancestors.{Chain, IsTree, print_process_tree-IsTree}
use process_magic.Terminals.{write_to_stdin}
use process_magic.Terminals.Pushed.{calls, write_to_stdin-calls}
use process_magic.Pcontroller.{Session, new}
use process_magic.Pcontroller.Syscalls.{
  get_segment_address, get_memory_maps, initialize_memory_maps, find_label,
}
use process_magic.Pcontroller.Regions.{unmap_existing_regions}
use process_magic.Pcontroller.Regions.Unmapping.{try_munmap, unmap_existing_regions-not_apart}
use process_magic.Spawn.{initialize_process, set_register_data, unmap_existing_memory}
use process_magic.Spawn.Order.{initialize_process-unmapped_pc}
use process_magic.Tests.Willing.{willing, still}

write_to_stdin_example :
    reverse (calls (write_to_stdin (logged willing) (pos 42) (codes "ls") (0, [])).1.1)
    ≡ open_fd (proc_path (pos 42) (codes "fd/0")) write_only
      ∷ (map (tiocsti 3) (as_bytes (codes "ls") ++ (10 ∷ [])) ++ (close 3 ∷ []))
write_to_stdin_example = write_to_stdin-calls willing 3 (λ b s. tt) (pos 42) (codes "ls") 0 0 refl

read_memory_maps-Fits_example : Holds (All Fits) (read_memory_maps willing (pos 9) 0).0
read_memory_maps-Fits_example = read_memory_maps-Fits willing (pos 9) 0 refl

abbrev shell : ProcessInfo
shell = record {
  name = codes "sh";
  pid = pos 42;
  ppid = pos 7;
  pgid = pos 42;
  uid = 1000;
  tty = some (codes "/dev/pts/3");
}

abbrev login : ProcessInfo
login = record {
  name = codes "login";
  pid = pos 7;
  ppid = pos 0;
  pgid = pos 5;
  uid = 1000;
  tty = some (codes "/dev/pts/3");
}

shell_read : get_process_info willing (pos 42) 5 ≡ (ok shell, 5)
unfolding get_process_info text_lines lines text_eq format line_text from_utf8 read_attributes
    split_once stat_tty_nr split_ascii_whitespace is_ascii_whitespace ends_with_paren parse_i32
    process_info tty_path
shell_read = refl

login_read : get_process_info willing (pos 7) 5 ≡ (ok login, 5)
unfolding get_process_info text_lines lines text_eq format line_text from_utf8 read_attributes
    split_once stat_tty_nr split_ascii_whitespace is_ascii_whitespace ends_with_paren parse_i32
    process_info tty_path
login_read = refl

print_process_tree_example :
    (print_process_tree willing (pos 42) 5 ≡ tree_lines willing 0 (login ∷ shell ∷ []) 5)
    × Holds (IsTree 0 (login ∷ shell ∷ [])) (print_process_tree willing (pos 42) 5).0
print_process_tree_example =
    print_process_tree-IsTree willing 2 (pos 42) 5 (shell ∷ login ∷ []) 5
      (Chain.up refl shell_read (Chain.up refl login_read (Chain.root refl))) (omega arith)

-- the maps of a tracee, with the page of the svc instruction behind them
abbrev region : Text → ℕ → MemoryMap
region label base = record {
  base_address = base;
  size = 0x2000;
  label = label;
  readable = true;
  writable = false;
  executable = true;
  private = true;
  bytes = [];
}

abbrev mapped : Session ℕ
mapped = record {
  controller = record (new (pos 42)) {
    memory_maps = some (region (codes "[vvar]") 0x6000 ∷ region (codes "[vdso]") 0x8000 ∷ []);
  };
  os = 5;
}

vvar_found : get_segment_address willing (codes "[vvar]") mapped ≡ (ok (0x6000, 0x2000), mapped)
unfolding get_segment_address get_memory_maps initialize_memory_maps find_label text_eq
vvar_found = refl

vdso_found : get_segment_address willing (codes "[vdso]") mapped ≡ (ok (0x8000, 0x2000), mapped)
unfolding get_segment_address get_memory_maps initialize_memory_maps find_label text_eq
vdso_found = refl

unmap_existing_regions_example :
    (unmap_existing_regions willing 0xb000 mapped
      ≡ (try_munmap willing 0xb000 0xa000 0xb000 >> try_munmap willing 0xb000 0 0x6000) mapped)
    × (apart 0xa000 0xb000 0xb000 4 ≡ false)
unmap_existing_regions_example =
    unmap_existing_regions-not_apart willing 0xb000 (0x6000, 0x2000) (0x8000, 0x2000) mapped mapped
      mapped vvar_found vdso_found (omega arith) (omega arith) (omega arith)

unmapped : unmap_existing_memory willing (pos 7) 5 ≡ (ok tt, 5)
unfolding unmap_existing_memory read_memory_maps lines parse_map_lines text_eq format
unmapped = refl

registers_set :
    (kind : RegisterSet) → set_register_data willing (pos 7) kind (replicate 272 1) 5 ≡ (ok tt, 5)
unfolding set_register_data
registers_set kind = refl

initialize_process_example :
    initialize_process willing
      (pos 7)
      (replicate 272 1)
      (replicate 272 1)
      (region (codes "/bin/sh") 0x4000 ∷ [])
      5
    ≡ (err (context "PTRACE_PEEKDATA failed" [] (errno 1)), 5)
initialize_process_example =
    initialize_process-unmapped_pc willing (pos 7) (replicate 272 1) (replicate 272 1)
      (region (codes "/bin/sh") 0x4000) [] still (errno 1) 5 5 5 5 5 unmapped
      (registers_set nt_prstatus) (registers_set nt_prfpreg) refl refl
