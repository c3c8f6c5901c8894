-- ===== src/Daemon/Rotated.antt =====
-- proctool/bin/daemon.rs: a round of the rot13 command, round a write of the process.
use process_magic.Prelude.{ℕ, ◌+◌, ◌^◌, ◌≤◌, ◌<◌, ◌≡◌, ◌∙◌, arith, some, ok}
use process_magic.Host.{Host, write_no}
use process_magic.Host.Machine.{TraceeMachine}
use process_magic.Pcontroller.{
  ProcessController, Session, is_writing_to_stdout, continue_syscall, stdout_fileno,
}
use process_magic.Pcontroller.Memory.{Leaves}
use process_magic.Pcontroller.Waiting.{get_registers-at}
use process_magic.Pcontroller.Rot13.Region.{rotated, rotated-rotated, rot13-Leaves}
use process_magic.Daemon.{rot13_round}

module _ (H : Host) (c : ProcessController) (X : TraceeMachine H c.pid) where
  open X use {tracee, memory}
  open tracee use {IsStopped, registers}
  open memory use {byte_at, byte_at-lt, Accessible}

  abbrev at : H.State → Session H.State
  at s = record { controller = c; os = s }

  -- Whenever the tracee's memory is `bytes`, with the words of `s` still accessible, the system call
  -- that it has entered comes to its end, and has changed no byte and made no word inaccessible.
  abbrev pub OnlyReads : H.State → (ℕ → ℕ) → Type 0
  OnlyReads s bytes =
      (t : H.State)
      → ((b : ℕ) → byte_at t b ≡ bytes b)
      → ((b : ℕ) → Accessible s b → Accessible t b)
      → Leaves H c memory t (byte_at t) (continue_syscall H (at t))

  is_writing_at :
      (s : H.State)
      → IsStopped s
      → (registers s).regs 8 ≡ H.sysno write_no
      → (registers s).regs 0 ≡ stdout_fileno
      → is_writing_to_stdout H (at s)
        ≡ (ok (some ((registers s).regs 1, (registers s).regs 2)), at s)
  unfolding is_writing_to_stdout
  is_writing_at s h number fd = ground (arith, get_registers-at H c tracee s h)

  -- For a stopped tracee before a write to standard output of a region that does not run past
  -- 2^64 and whose words can be accessed, if the write of the rotated bytes comes to its end and
  -- changes no memory, a round of the rot13 command ends well and leaves every byte as it was.
  pub rot13_round-Leaves :
      (s : H.State)
      → IsStopped s
      → (registers s).regs 8 ≡ H.sysno write_no
      → (registers s).regs 0 ≡ stdout_fileno
      → (registers s).regs 1 + (registers s).regs 2 ≤ 2 ^ 64
      → ((j : ℕ) → j < (registers s).regs 2 → Accessible s ((registers s).regs 1 + j))
      → OnlyReads s
          (rotated (byte_at s) ((registers s).regs 1) ((registers s).regs 1 + (registers s).regs 2))
      → Leaves H c memory s (byte_at s) (rot13_round H (at s))
  unfolding rot13_round
  rot13_round-Leaves s h number fd fits acc reads =
      let base : ℕ = (registers s).regs 1 in
      let count : ℕ = (registers s).regs 2 in
      let first = rot13-Leaves H c memory s base count fits acc in
      let during = reads first.next first.bytes_eq first.accessible in
      let second =
        rot13-Leaves H c memory during.next base count fits
          (λ j hj. during.accessible (base + j) (first.accessible (base + j) (acc j hj))) in
      record {
        next = second.next;
        ends = ground (arith, is_writing_at s h number fd, first.ends, during.ends, second.ends);
        bytes_eq = λ b.
            rotated-rotated (byte_at s) (byte_at during.next) (byte_at second.next) base
              (base + count) b (byte_at-lt s b) (during.bytes_eq b ∙ first.bytes_eq b)
              (second.bytes_eq b);
        accessible = λ b hb. second.accessible b (during.accessible b (first.accessible b hb));
      }
