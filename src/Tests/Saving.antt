-- ===== src/Tests/Saving.antt =====
-- A freeze whose state file has been there before, on the machine that grants what is asked of it,
-- with one file that can be written.
use process_magic.Prelude.{
  ℕ, ◌≡◌, refl, true, false, [], ◌∷◌, ◌++◌, List, errno, Result, ok, err, if◌then◌else◌,
}
use mathlib.Core.Bool.{false≢true}
use process_magic.Int.{pos}
use process_magic.Text.{Text, codes, text_eq, format}
use process_magic.Host
use process_magic.Host.{Host, Call, Reply}
use process_magic.Messages.{DaemonMessage}
use process_magic.Myprocfs.Files.{read_memory_maps, populate_memory, populate_maps}
use process_magic.Myprocfs.Lines.{lines, parse_map_lines}
use process_magic.Pcontroller.{
  attach, get_registers, detach_and_stop, drop_controller, with_controller,
}
use process_magic.Pcontroller.Takeover.{takeover}
use process_magic.Cryogenics.{ProcessState, freeze}
use process_magic.Client.{run_freeze, run_thaw}
use process_magic.Client.StateFile.{
  FileSystem, overwritten, ends_with_brace, thawed, state_path, run_thaw-run_freeze,
}
use process_magic.Tests.Willing.{willing}

-- the calls on the file; any other is of no account to it
abbrev filed_perform : (c : Call) → ℕ × List ℕ → Result (Reply c) × (ℕ × List ℕ)
filed_perform (Host.open_create path) s = (ok 4, s)
filed_perform (Host.write_all fd bytes) s = (ok tt, (s.0, overwritten s.1 bytes))
filed_perform (Host.read_file path) s =
    (ok (if text_eq path (state_path (pos 8)) then s.1 else []), s)
filed_perform c s = let (r, t) = willing.perform c s.0 in (r, (t, s.1))

abbrev filed : Host
filed = record willing { State = ℕ × List ℕ; perform = filed_perform }

abbrev files : FileSystem filed
files = record {
  content = λ s path. if text_eq path (state_path (pos 8)) then s.1 else [];
  IsWritable = λ path. text_eq path (state_path (pos 8)) ≡ true;
  fd_of = λ s path. 4;
  after_open = λ s path. s;
  opens = λ s path w. (refl, refl);
  after_write = λ s path bytes. (s.0, overwritten s.1 bytes);
  writes = λ s path bytes w. (refl, rw w refl);
  reads = λ s path. refl;
}

abbrev at_rest : ProcessState
at_rest = record { memory_maps = []; regs = λ i. 0; sp = 0; pc = 0; pstate = 0 }

-- a notation that has one state
abbrev no_message : DaemonMessage → Result Text
no_message m = ok []

abbrev state_bytes : ProcessState → List ℕ
state_bytes state = codes "{7}"

abbrev read_state : List ℕ → Result ProcessState
read_state bytes = if text_eq bytes (codes "{7}") then ok at_rest else err (errno 2)

refused :
    (tail : List ℕ)
    → ends_with_brace tail ≡ true
    → read_state (state_bytes at_rest ++ tail) ≡ err (errno 2)
unfolding text_eq
refused [] e = absurd (false≢true e)
refused (x ∷ tail) e = refl

-- a longer file of an earlier freeze
abbrev before : ℕ × List ℕ
before = (5, codes "{789}")

frozen : freeze filed (pos 8) before ≡ (ok at_rest, before)
unfolding freeze with_controller drop_controller attach get_registers detach_and_stop
    read_memory_maps lines parse_map_lines populate_memory populate_maps text_eq format
frozen = refl

run_thaw-run_freeze_example :
    (run_freeze filed no_message state_bytes read_state [] (pos 8) before
      ≡ takeover filed (pos 8) (codes "/bin/risen") false (5, codes "{7}9}"))
    × (files.content (5, codes "{7}9}") (state_path (pos 8))
        ≡ overwritten (files.content before (state_path (pos 8))) (codes "{7}"))
    × (run_thaw filed no_message state_bytes read_state (state_path (pos 8)) (5, codes "{7}9}")
        ≡ thawed filed files no_message state_bytes read_state
            (errno 2)
            (files.content before (state_path (pos 8)))
            at_rest
            (5, codes "{7}9}"))
unfolding format text_eq
run_thaw-run_freeze_example =
    run_thaw-run_freeze filed files no_message state_bytes read_state [] (pos 8) before before
      (5, codes "{7}9}") at_rest (errno 2) frozen refl refl refl refused (λ h. refl)
