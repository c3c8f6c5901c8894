-- ===== src/Tests/Rounds.antt =====
-- The theorems on whole rounds of the daemon's loops, applied to writes of the small machine.
use process_magic.Prelude.{
  ℕ, ◌+◌, ◌<◌, ◌≡◌, refl, true, List, [], ◌∷◌, arith, Option, none, some, ok, ◌==◌, if◌then◌else◌,
  length, get_or, inl, ◌↔◌,
}
use process_magic.Int.{pos}
use process_magic.Text.{Text, codes, text_eq}
use process_magic.Utf8.{as_bytes, encode_char, from_utf8}
use process_magic.Pcontroller.{new, continue_syscall, wait_for_anything}
use process_magic.Pcontroller.Memory.{Leaves}
use process_magic.Pcontroller.Colorize.{red, read_string}
use process_magic.Pcontroller.Colorize.Shown.{shown, redirected}
use process_magic.Procinfo.{ProcessInfo}
use process_magic.Procinfo.Listing.{find_terminal}
use process_magic.Procinfo.Listing.Terminal.{IsFirstOn, find_terminal-FindsFirst}
use process_magic.Daemon.{rot13_round, colorize_round}
use process_magic.Daemon.Rotated.{rot13_round-Leaves}
use process_magic.Daemon.Colorized.{resumed, colorize_round-resumed}
use process_magic.Messages.{Args}
use process_magic.Client.Dispatch.{IsSent, IsRefused, terminal_sizes-unserved}
use process_magic.Tests.Machine.{
  Toy, bytes_of, toy_host, toy_machine, toy_memory, toy_stop, toy_stepping, tracee_pid,
  machine_at_rest, registers_at_rest, session,
}

-- the machine before a write of the three letters at address 100
abbrev writing_to : ℕ → Toy
writing_to fd = record machine_at_rest {
  at_regs = record registers_at_rest {
    regs = λ i. if i == 8 then 64 else if i == 0 then fd else if i == 1 then 100 else 3;
  };
}

continues :
    (t : Toy)
    → t.stopped ≡ true
    → continue_syscall toy_host (session t) ≡ (ok tt, session (toy_stop (toy_stepping t)))
unfolding continue_syscall wait_for_anything
continues t h = ground (arith, h)

rot13_round_example :
    Leaves toy_host
      (new tracee_pid)
      (toy_memory tracee_pid)
      (writing_to 1)
      (bytes_of (writing_to 1))
      (rot13_round toy_host (session (writing_to 1)))
rot13_round_example =
    rot13_round-Leaves toy_host (new tracee_pid) (toy_machine tracee_pid) (writing_to 1) refl refl
      refl (omega arith) (λ j h. refl)
      (λ t e acc. record {
        next = toy_stop (toy_stepping t);
        ends = continues t (acc 0 refl);
        bytes_eq = λ b. refl;
        accessible = λ b h. refl;
      })

letters :
    read_string toy_host 100 3 (session (writing_to 2)) ≡ (ok (codes "ABC"), session (writing_to 2))
unfolding read_string from_utf8
letters = refl

colorize_round_example : record {
  entered : Toy;
  behind : Toy;
  next : Toy;
  entered_registers :
      entered.at_regs
      ≡ redirected toy_host
          (new tracee_pid)
          (toy_machine tracee_pid)
          4096
          (codes "ABC")
          (writing_to 2).at_regs;
  entered_text :
      (j : ℕ)
      → j < length (shown (codes "ABC"))
      → bytes_of entered (4096 + j) ≡ get_or (shown (codes "ABC")) j 0;
  run : continue_syscall toy_host (session entered) ≡ (ok tt, session behind);
  ends : colorize_round toy_host 4096 (session (writing_to 2)) ≡ (ok tt, session next);
  registers_eq : next.at_regs ≡ resumed (writing_to 2).at_regs behind.at_regs;
}
unfolding red as_bytes encode_char
colorize_round_example =
    colorize_round-resumed toy_host (new tracee_pid) (toy_machine tracee_pid) 4096 (writing_to 2)
      (codes "ABC") refl refl refl letters
      (inl (omega arith), (inl (omega arith), (inl (omega arith), tt))) (omega arith) (λ j h. refl)
      (λ t h r x. record {
        behind = toy_stop (toy_stepping t);
        ends = continues t h;
        stopped = refl;
      })

abbrev process_on : ℕ → Option Text → ProcessInfo
process_on n tty = record {
  name = codes "sh";
  pid = pos n;
  ppid = pos 1;
  pgid = pos 7;
  uid = 1000;
  tty = tty;
}

abbrev processes : List ProcessInfo
processes =
    process_on 7 none ∷ process_on 8 (some (codes "b")) ∷ process_on 9 (some (codes "b")) ∷ []

-- The search on three processes returns pid 8.
find_terminal_example :
    (info : ProcessInfo) × IsFirstOn (codes "b") processes info × (info.pid ≡ pos 8)
unfolding find_terminal text_eq
find_terminal_example = find_terminal-FindsFirst (codes "b") processes

terminal_sizes-unserved_example :
    (IsSent Args.terminal_sizes × IsRefused Args.terminal_sizes)
    ↔ (Args.terminal_sizes ≡ Args.terminal_sizes)
terminal_sizes-unserved_example = terminal_sizes-unserved Args.terminal_sizes
