-- ===== src/Tests/Carrying.antt =====
-- A process that is frozen on the machine that grants what is asked of it, and thawed on the small one.
use process_magic.Prelude.{◌+◌, ◌≡◌, refl, arith, true, false, List, [], ◌∷◌, ok, All}
use process_magic.Int.{pos}
use process_magic.Text.{codes, text_eq, format, splitn, is_whitespace, parse_unsigned, trim}
use process_magic.Utf8.{from_utf8}
use process_magic.Words.{sub_u64}
use process_magic.Myprocfs.{MemoryMap, parse_map_line, parse_byte_range, parse_permissions}
use process_magic.Myprocfs.Files.{read_memory_maps}
use process_magic.Myprocfs.Lines.{lines, line_text, parse_map_lines}
use process_magic.Myprocfs.Recorded.{MemoryFile}
use process_magic.Pcontroller.{new, attach, detach_and_stop}
use process_magic.Cryogenics.{ProcessState, freeze, thaw_with}
use process_magic.Cryogenics.Thawed.{let_go}
use process_magic.Cryogenics.Carried.{HasRoom, Freezes, IsCarried, thaw_with-freeze}
use process_magic.Tests.Machine.{Toy, toy_host, toy_machine, tracee_pid}
use process_magic.Tests.Serving.{vdso_session}
use process_magic.Tests.Mapping.{controller, ready, fuelled, svc_region, toy_calls}
use process_magic.Tests.Willing.{willing, still, memory_of}

abbrev memory_file : MemoryFile willing
memory_file = record {
  memory = memory_of;
  memory-IsByte = λ a. omega arith;
  IsReadable = λ a n. Unit {0};
  At = λ s fd o. s ≡ o;
  after_seek = λ s fd a. a;
  seeks = λ s fd o a at. (refl, refl);
  after_read = λ s fd n. s + n;
  reads = λ s fd a n at readable. rw at (refl, refl);
}

abbrev vdso : MemoryMap
vdso = record {
  base_address = 0x10000;
  size = 0x2000;
  label = codes "[vdso]";
  readable = true;
  writable = false;
  executable = true;
  private = true;
  bytes = [];
}

-- memory that cannot be read
abbrev guard : MemoryMap
guard = record {
  base_address = 0x20000;
  size = 0x1000;
  label = codes "guard";
  readable = false;
  writable = false;
  executable = false;
  private = true;
  bytes = [];
}

abbrev maps : List MemoryMap
maps = vdso ∷ guard ∷ []

freezes : Freezes willing memory_file (pos 9) 5 still maps
unfolding attach detach_and_stop read_memory_maps lines parse_map_lines text_eq format line_text
    from_utf8 parse_map_line splitn is_whitespace parse_byte_range parse_unsigned sub_u64
    parse_permissions trim
freezes = record {
  attached = 5;
  read = 5;
  stopped = (detach_and_stop willing (record { controller = new (pos 9); os = 5 })).1;
  listed = 5;
  opened = 5;
  fd = 3;
  offset = 5;
  attaches = refl;
  getregset = refl;
  stops = refl;
  lists = refl;
  opens = refl;
  starts = refl;
}

room : All (HasRoom 12296) maps
room = ((omega arith, refl), ((omega arith, refl), tt))

thaw_with-freeze_example :
    (state : ProcessState) × (t : Toy) × ((freeze willing (pos 9) 5).0 ≡ ok state)
    × (thaw_with toy_host state vdso_session
        ≡ let_go toy_host controller
            (toy_machine tracee_pid)
            toy_calls
            fuelled
            12296
            (record { controller = controller; os = t }))
    × (t.stopped ≡ true)
    × (t.at_regs ≡ still)
    × All
        (IsCarried willing memory_file toy_host controller (toy_machine tracee_pid) toy_calls t)
        maps
thaw_with-freeze_example =
    thaw_with-freeze willing memory_file toy_host controller (toy_machine tracee_pid) toy_calls
      fuelled 12296 (pos 9) 5 still maps vdso_session ready freezes (λ w. tt, (λ w. tt, tt)) room
      ((refl, tt), (tt, tt)) svc_region.0 svc_region.1 svc_region.2
