-- ===== src/Pcontroller/Colorize.antt =====
-- proctool/pcontroller.rs: `read_string` and `colorize_stderr`.
pub mod Written
pub mod Padded
pub mod Shown
use process_magic.Prelude.{
  ℕ, zero, suc, ◌+◌, ◌-◌, ◌^◌, ◌%◌, Option, none, some, List, [], ◌∷◌, ◌++◌, length, Result, err,
  errno, panic, ltb, ◌==◌, if◌then◌else◌,
}
use process_magic.Text.{Text, codes, byte_len}
use process_magic.Utf8.{from_utf8, as_bytes}
use process_magic.Words.{add_u64}
use process_magic.Words.Bytes.{from_le}
use process_magic.Host.{Host, process_vm_readv, ptrace_write}
use process_magic.Host.Action.{Action, pure, from, fail, ◌>>=◌, ◌>>◌}
use process_magic.Pcontroller.{Method, os, self_pid, get_registers, set_registers}
use process_magic.Pcontroller.Syscalls.{update, buffer_of}

-- `format!("\x1b[31m{}\x1b[0m", s)`
unfoldable pub red : Text → Text
red s = 27 ∷ (codes "[31m" ++ (s ++ (27 ∷ codes "[0m")))

-- `while s.len() % 8 != 0 { s.push('\0') }`: seven rounds are enough.
unfoldable pub pad_to_words : ℕ → Text → Text
pad_to_words zero s = s
pad_to_words (suc rounds) s =
    let more = pad_to_words rounds (s ++ (0 ∷ [])) in if byte_len s % 8 == 0 then s else more

module _ (H : Host) where
  -- `vec![0; count]`: more than `isize::MAX` bytes are a capacity overflow.
  abbrev pub capacity : ℕ → Method H (Unit {0})
  capacity count = if ltb (2 ^ 63 - 1) count then from panic else pure tt

  unfoldable pub read_string : ℕ → ℕ → Method H Text
  read_string base_addr count = do
    capacity count
    pid ← self_pid H
    read ← os H (H.perform (process_vm_readv pid base_addr count))
    if length read == 0
        then fail "process_vm_readv failed to read any bytes" []
        else from (elim (from_utf8 (buffer_of count read)) [
          | none ↦ err (errno 0)
          | some s ↦ Result.ok s
        ])

  -- The loop over `bytes` in words of eight bytes, from the index `i` on.
  unfoldable pub write_words : ℕ → ℕ → List ℕ → Method H (Unit {0})
  unfolding from_le
  write_words region_addr i [] = pure tt
  write_words region_addr i (b0 ∷ b1 ∷ b2 ∷ b3 ∷ b4 ∷ b5 ∷ b6 ∷ b7 ∷ bytes) = do
    pid ← self_pid H
    p ← from (add_u64 H.profile region_addr i)
    os H (H.perform (ptrace_write pid p (from_le (b0 ∷ b1 ∷ b2 ∷ b3 ∷ b4 ∷ b5 ∷ b6 ∷ b7 ∷ []))))
    write_words region_addr (i + 8) bytes
  write_words region_addr i _ = from panic

  unfoldable pub colorize_stderr : ℕ → ℕ → ℕ → Method H (Unit {0})
  colorize_stderr region_addr base_addr count = do
    s ← read_string base_addr count
    let original_length = length (as_bytes (red s))
    let bytes = as_bytes (pad_to_words 7 (red s))
    original_regs ← get_registers H
    write_words region_addr 0 bytes
    set_registers H (record original_regs {
      regs = update (update original_regs.regs 1 region_addr) 2 original_length;
    })
