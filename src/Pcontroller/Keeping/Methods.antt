-- ===== src/Pcontroller/Keeping/Methods.antt =====
-- proctool/pcontroller.rs: each method keeps the controller's pid and its flag.
use process_magic.Prelude.{ℕ, zero, suc, ◌+◌, ◌==◌, List, [], ◌∷◌, if◌then◌else◌}
use process_magic.Int.{ℤ}
use process_magic.Words.{add_u64}
use process_magic.Host.{Host, Registers, ptrace_write}
use process_magic.Host.Action.{pure, from, ◌>>=◌, ◌>>◌}
use process_magic.Pcontroller.{
  attach, get_registers, set_registers, step_and_wait, wait_for_pc, ensure_not_in_syscall,
  current_syscall, stop_at_next_syscall, continue_syscall, is_writing_to_stdout,
  is_writing_to_stderr, detach, detach_and_stop, self_pid, os, Method,
}
use process_magic.Pcontroller.Stdin.{cancel_pending_read}
use process_magic.Pcontroller.Rot13.{rot13_at, rot13_from, rot13}
use process_magic.Pcontroller.Colorize.{read_string, write_words, colorize_stderr}
use process_magic.Host.Keeping.{Keeps, Keeps-bind, Keeps-from, Keeps-Option}
use process_magic.Pcontroller.Keeping.{IsOwner, owner_rules}

module _ (H : Host) {pid : ℤ} where
  pub get_registers-Keeps : Keeps (IsOwner pid) (get_registers H)
  unfolding get_registers
  get_registers-Keeps = search owner_rules

  pub set_registers-Keeps :
      (registers : Registers) → Keeps (IsOwner pid) (set_registers H registers)
  unfolding set_registers
  set_registers-Keeps registers = search owner_rules

  pub attach-Keeps : Keeps (IsOwner pid) (attach H)
  unfolding attach
  attach-Keeps = search owner_rules

  pub detach-Keeps : Keeps (IsOwner pid) (detach H)
  unfolding detach
  detach-Keeps = search owner_rules

  pub detach_and_stop-Keeps : Keeps (IsOwner pid) (detach_and_stop H)
  unfolding detach_and_stop
  detach_and_stop-Keeps = search owner_rules

  pub step_and_wait-Keeps : Keeps (IsOwner pid) (step_and_wait H)
  unfolding step_and_wait
  step_and_wait-Keeps = search owner_rules

  pub current_syscall-Keeps : Keeps (IsOwner pid) (current_syscall H)
  unfolding current_syscall
  current_syscall-Keeps = search (owner_rules, get_registers-Keeps)

  -- one round of the loop, over the rest of it
  round-Keeps :
      (rest : Method H (Unit {0})) (pc : ℕ)
      → Keeps (IsOwner pid) rest
      → Keeps (IsOwner pid) (do
        step_and_wait H
        current_registers ← get_registers H
        if current_registers.pc == pc then rest else pure tt)
  round-Keeps rest pc k = search (owner_rules, step_and_wait-Keeps, get_registers-Keeps)

  wait_for_pc-Keeps : (rounds pc : ℕ) → Keeps (IsOwner pid) (wait_for_pc H rounds pc)
  unfolding wait_for_pc
  wait_for_pc-Keeps zero pc = search owner_rules
  wait_for_pc-Keeps (suc rounds) pc =
      round-Keeps (wait_for_pc H rounds pc) pc (wait_for_pc-Keeps rounds pc)

  pub ensure_not_in_syscall-Keeps : Keeps (IsOwner pid) (ensure_not_in_syscall H)
  unfolding ensure_not_in_syscall
  ensure_not_in_syscall-Keeps = search (owner_rules, get_registers-Keeps, wait_for_pc-Keeps)

  pub stop_at_next_syscall-Keeps : Keeps (IsOwner pid) (stop_at_next_syscall H)
  unfolding stop_at_next_syscall
  stop_at_next_syscall-Keeps = search owner_rules

  pub continue_syscall-Keeps : Keeps (IsOwner pid) (continue_syscall H)
  unfolding continue_syscall
  continue_syscall-Keeps = search owner_rules

  pub is_writing_to_stdout-Keeps : Keeps (IsOwner pid) (is_writing_to_stdout H)
  unfolding is_writing_to_stdout
  is_writing_to_stdout-Keeps = search (owner_rules, get_registers-Keeps)

  pub is_writing_to_stderr-Keeps : Keeps (IsOwner pid) (is_writing_to_stderr H)
  unfolding is_writing_to_stderr
  is_writing_to_stderr-Keeps = search (owner_rules, get_registers-Keeps)

  -- the body of `cancel_pending_read`
  pub cancel_pending_read-Keeps : Keeps (IsOwner pid) (cancel_pending_read H)
  unfolding cancel_pending_read
  cancel_pending_read-Keeps = Keeps-bind (current_syscall H) _ current_syscall-Keeps λ call.
      Keeps-Option call _ _ (search owner_rules) λ found. search (owner_rules, step_and_wait-Keeps)

  rot13_at-Keeps : (addr : ℕ) → Keeps (IsOwner pid) (rot13_at H addr)
  unfolding rot13_at
  rot13_at-Keeps addr = search owner_rules

  rot13_from-Keeps :
      (base_addr i rounds : ℕ) → Keeps (IsOwner pid) (rot13_from H base_addr i rounds)
  unfolding rot13_from
  rot13_from-Keeps base_addr i zero = search owner_rules
  rot13_from-Keeps base_addr i (suc rounds) =
      Keeps-bind _ _ (Keeps-from _)
        λ addr. Keeps-bind _ _ (rot13_at-Keeps addr) λ _. rot13_from-Keeps base_addr (i + 1) rounds

  pub rot13-Keeps : (base_addr count : ℕ) → Keeps (IsOwner pid) (rot13 H base_addr count)
  unfolding rot13
  rot13-Keeps base_addr count = search (owner_rules, rot13_from-Keeps)

  read_string-Keeps : (base_addr count : ℕ) → Keeps (IsOwner pid) (read_string H base_addr count)
  unfolding read_string
  read_string-Keeps base_addr count = search owner_rules

  written-Keeps :
      (region_addr i word : ℕ) (rest : Method H (Unit {0}))
      → Keeps (IsOwner pid) rest
      → Keeps (IsOwner pid) (do
        own_pid ← self_pid H
        p ← from (add_u64 H.profile region_addr i)
        os H (H.perform (ptrace_write own_pid p word))
        rest)
  written-Keeps region_addr i word rest k = search owner_rules

  write_words-Keeps :
      (region_addr i : ℕ) (bytes : List ℕ) → Keeps (IsOwner pid) (write_words H region_addr i bytes)
  unfolding write_words
  write_words-Keeps region_addr i [] = search owner_rules
  write_words-Keeps region_addr i (b0 ∷ b1 ∷ b2 ∷ b3 ∷ b4 ∷ b5 ∷ b6 ∷ b7 ∷ bytes) =
      written-Keeps region_addr i _ _ (write_words-Keeps region_addr (i + 8) bytes)
  write_words-Keeps region_addr i _ = search owner_rules

  pub colorize_stderr-Keeps :
      (region_addr base_addr count : ℕ)
      → Keeps (IsOwner pid) (colorize_stderr H region_addr base_addr count)
  unfolding colorize_stderr
  colorize_stderr-Keeps region_addr base_addr count =
      search (
        owner_rules, read_string-Keeps, get_registers-Keeps, write_words-Keeps, set_registers-Keeps,
      )
