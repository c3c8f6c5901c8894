-- ===== src/Daemon/Colorized.antt =====
-- proctool/bin/daemon.rs: a round of the colorize command, round a write of the process.
use process_magic.Prelude.{ℕ, ◌+◌, ◌*◌, ◌^◌, ◌≤◌, ◌<◌, ◌≡◌, arith, some, ok, All, length, get_or}
use process_magic.Text.{Text}
use process_magic.Utf8.Encoded.{IsScalar}
use process_magic.Host.{Host, Registers, write_no}
use process_magic.Host.Machine.{TraceeMachine}
use process_magic.Pcontroller.{
  ProcessController, Session, is_writing_to_stderr, continue_syscall, set_registers, stderr_fileno,
}
use process_magic.Pcontroller.Syscalls.{update}
use process_magic.Pcontroller.Waiting.{get_registers-at}
use process_magic.Pcontroller.Colorize.{read_string}
use process_magic.Pcontroller.Colorize.Shown.{shown, word_count, redirected, colorize_stderr-shown}
use process_magic.Daemon.{colorize_round}

-- The registers behind the call, with those of the write that the process made.
abbrev pub resumed : Registers → Registers → Registers
resumed original r = record r {
  regs =
      update (update (update r.regs 0 (original.regs 2)) 1 (original.regs 1)) 2 (original.regs 2);
}

module _ (H : Host) (c : ProcessController) (X : TraceeMachine H c.pid) where
  open X use {tracee, memory}
  open tracee use {IsStopped, registers, after_setregset, setregset, registers-setregset}
  open memory use {byte_at, Accessible}

  abbrev at : H.State → Session H.State
  at s = record { controller = c; os = s }

  -- The system call that a stopped tracee has entered comes to its end, in `behind`.
  abbrev pub Ends : H.State → Type 0
  Ends t = record {
    behind : H.State;
    ends : continue_syscall H (at t) ≡ (ok tt, at behind);
    stopped : IsStopped behind;
  }

  -- Whenever the write is that of the coloured text, it comes to its end.
  abbrev pub Writes : ℕ → Text → H.State → Type 0
  Writes region text s =
      (t : H.State)
      → IsStopped t
      → registers t ≡ redirected H c X region text (registers s)
      → ((j : ℕ) → j < length (shown text) → byte_at t (region + j) ≡ get_or (shown text) j 0)
      → Ends t

  is_writing_at :
      (s : H.State)
      → IsStopped s
      → (registers s).regs 8 ≡ H.sysno write_no
      → (registers s).regs 0 ≡ stderr_fileno
      → is_writing_to_stderr H (at s)
        ≡ (ok (some ((registers s).regs 1, (registers s).regs 2)), at s)
  unfolding is_writing_to_stderr
  is_writing_at s h number fd = ground (arith, get_registers-at H c tracee s h)

  -- For a stopped tracee before a write to standard error of a text that can be read, with room
  -- for it in the region, if the write of the coloured text comes to its end, a round of the
  -- colorize command ends well: the call is entered with the coloured text and its length, and
  -- behind it x1 and x2 are those of the process's own write and x0 is the length of that write.
  pub colorize_round-resumed :
      (region : ℕ) (s : H.State) (text : Text)
      → IsStopped s
      → (registers s).regs 8 ≡ H.sysno write_no
      → (registers s).regs 0 ≡ stderr_fileno
      → read_string H ((registers s).regs 1) ((registers s).regs 2) (at s) ≡ (ok text, at s)
      → All IsScalar text
      → region + 8 * word_count text ≤ 2 ^ 64
      → ((j : ℕ) → j < word_count text → Accessible s (region + 8 * j))
      → Writes region text s
      → record {
        entered : H.State;
        behind : H.State;
        next : H.State;
        entered_registers : registers entered ≡ redirected H c X region text (registers s);
        entered_text :
            (j : ℕ)
            → j < length (shown text)
            → byte_at entered (region + j) ≡ get_or (shown text) j 0;
        run : continue_syscall H (at entered) ≡ (ok tt, at behind);
        ends : colorize_round H region (at s) ≡ (ok tt, at next);
        registers_eq : registers next ≡ resumed (registers s) (registers behind);
      }
  unfolding colorize_round set_registers
  colorize_round-resumed region s text h number fd read scalar fits acc writes =
      let base : ℕ = (registers s).regs 1 in
      let count : ℕ = (registers s).regs 2 in
      let put = colorize_stderr-shown H c X region base count s text read scalar h fits acc in
      let during : Ends put.next = writes put.next put.stopped put.registers_eq put.text_eq in
      let last : Registers = resumed (registers s) (registers during.behind) in
      record {
        entered = put.next;
        entered_registers = put.registers_eq;
        entered_text = put.text_eq;
        run = during.ends;
        behind = during.behind;
        next = after_setregset during.behind last;
        ends = ground (
          arith,
          is_writing_at s h number fd,
          get_registers-at H c tracee s h,
          put.ends,
          during.ends,
          get_registers-at H c tracee during.behind during.stopped,
          setregset during.behind last during.stopped,
        );
        registers_eq = registers-setregset during.behind last during.stopped;
      }
