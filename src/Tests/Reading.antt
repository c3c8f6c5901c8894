-- ===== src/Tests/Reading.antt =====
-- The theorems on text and bytes, applied to concrete ones.
use process_magic.Prelude.{
  ℕ, ◌+◌, ◌<◌, ◌≡◌, refl, true, false, List, [], ◌∷◌, ◌++◌, arith, none, ok, ◌>>=◌,
}
use process_magic.Int.{pos}
use process_magic.Text.{Text, codes, text_eq, is_whitespace, parse_i32}
use process_magic.Words.{debug, release, add_u64}
use process_magic.Myprocfs.{parse_map_line, index}
use process_magic.Myprocfs.Line.{Entry, entry_line, IsWritten, parse_map_line-entry_line}
use process_magic.Pcontroller.Syscalls.{svc_bytes, search_buffer, find_svc, starts_with_svc}
use process_magic.Pcontroller.Syscalls.Search.{SvcAt, search_buffer_first, search_buffer_complete}
use process_magic.Procinfo.{
  ProcessInfo, stat_tty_nr, split_ascii_whitespace, is_ascii_whitespace, ends_with_paren, tty_major,
  tty_minor,
}
use process_magic.Procinfo.Tty.{tty-encode_dev, stat_tty_nr_field}
use process_magic.Procinfo.Listing.{group_by_pid}
use process_magic.Procinfo.Listing.Groups.{alone, group_by_pid-alone}

abbrev pub buffer : List ℕ
buffer = 0x1f ∷ 0x20 ∷ 0x03 ∷ 0xd5 ∷ (svc_bytes ++ (0xc0 ∷ []))

buffer_found : search_buffer debug 4096 buffer ≡ ok 4100
unfolding search_buffer find_svc starts_with_svc add_u64
buffer_found = refl

search_buffer_first_example :
    (k : ℕ) × (4100 ≡ 4096 + k) × SvcAt buffer k × ((j : ℕ) → j < k → ¬ SvcAt buffer j)
search_buffer_first_example = search_buffer_first debug 4096 buffer 4100 (omega arith) buffer_found

search_buffer_complete_example : (addr : ℕ) × (search_buffer release 4096 buffer ≡ ok addr)
search_buffer_complete_example =
    search_buffer_complete release 4096 buffer 4 (omega arith) (0xc0 ∷ [], refl)

abbrev pub vdso_entry : Entry
vdso_entry = record {
  start = 0xffff8000;
  start_zeros = 0;
  end = 0xffff9000;
  end_zeros = 2;
  readable = true;
  writable = false;
  executable = true;
  private = true;
  offset = codes "00000000";
  device = codes "00:00";
  inode = codes "0";
  spaces = 3;
  path = codes "[vdso]";
}

pub vdso_entry-IsWritten : IsWritten vdso_entry
unfolding is_whitespace
vdso_entry-IsWritten = record {
  ordered = omega arith;
  fits = omega arith;
  offset_solid = (refl, (refl, (refl, (refl, (refl, (refl, (refl, (refl, tt))))))));
  device_solid = (refl, (refl, (refl, (refl, (refl, tt)))));
  inode_solid = (refl, tt);
  path_begins = refl;
  path_ends = refl;
}

parse_map_line_example :
    parse_map_line debug (entry_line vdso_entry)
    ≡ ok (record {
      base_address = 0xffff8000;
      size = 4096;
      label = codes "[vdso]";
      readable = true;
      writable = false;
      executable = true;
      private = true;
      bytes = [];
    })
parse_map_line_example = parse_map_line-entry_line vdso_entry vdso_entry-IsWritten debug

tty-encode_dev_example : (tty_major (pos 34819) ≡ 136) × (tty_minor (pos 34819) ≡ 3)
tty-encode_dev_example = tty-encode_dev (pos 34819) 136 3 (omega arith) (omega arith) refl

abbrev stat_line : Text
stat_line = codes "70 (tmux: server) S 1 69 70 34819"

stat_words :
    split_ascii_whitespace stat_line
    ≡ codes "70"
      ∷ codes "(tmux:"
      ∷ codes "server)"
      ∷ codes "S"
      ∷ codes "1"
      ∷ codes "69"
      ∷ codes "70"
      ∷ codes "34819"
      ∷ []
unfolding split_ascii_whitespace is_ascii_whitespace text_eq
stat_words = refl

first_open : ends_with_paren (codes "(tmux:") ≡ false
unfolding ends_with_paren
first_open = refl

last_closed : ends_with_paren (codes "server)") ≡ true
unfolding ends_with_paren
last_closed = refl

stat_tty_nr_field_example :
    stat_tty_nr stat_line
    ≡ index
        (codes "70"
          ∷ codes "(tmux:"
          ∷ codes "server)"
          ∷ codes "S"
          ∷ codes "1"
          ∷ codes "69"
          ∷ codes "70"
          ∷ codes "34819"
          ∷ [])
        5
      >>= parse_i32
stat_tty_nr_field_example =
    stat_tty_nr_field stat_line (codes "70") (codes "(tmux:" ∷ []) (codes "server)")
      (codes "S" ∷ codes "1" ∷ codes "69" ∷ codes "70" ∷ codes "34819" ∷ []) stat_words
      (first_open, tt) last_closed

-- two processes of one process group
abbrev process_numbered : ℕ → ProcessInfo
process_numbered n = record {
  name = codes "sh";
  pid = pos n;
  ppid = pos 1;
  pgid = pos 7;
  uid = 1000;
  tty = none;
}

group_by_pid-alone_example :
    group_by_pid (process_numbered 7 ∷ process_numbered 8 ∷ []) []
    ≡ alone (process_numbered 7) ∷ alone (process_numbered 8) ∷ []
group_by_pid-alone_example =
    group_by_pid-alone (process_numbered 7 ∷ process_numbered 8 ∷ []) ((refl, tt), (tt, tt))
