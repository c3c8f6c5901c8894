-- ===== src/Pcontroller/Rot13.antt =====
-- proctool/pcontroller.rs: `rot13_byte`, and `rot13` over the memory of the tracee.
pub mod Bytes
pub mod Region
use process_magic.Prelude.{
  ℕ, zero, suc, ◌+◌, ◌-◌, ◌*◌, ◌/◌, ◌%◌, ◌^◌, Bool, ◌&&◌, leb, ◌==◌, if◌then◌else◌,
}
use Prim.Native.Nat.{bit_and, bit_or}
use process_magic.Words.{add_u64}
use process_magic.Host.{Host, ptrace_read, ptrace_write}
use process_magic.Host.Action.{pure, from, ◌>>=◌, ◌>>◌}
use process_magic.Pcontroller.{Method, os, self_pid}

-- `b as u8` comes in below 256, and no step of the arithmetic leaves a `u8`.
unfoldable pub rot13_byte : ℕ → ℕ
rot13_byte b =
    if leb 65 b && leb b 90
    then (b - 65 + 13) % 26 + 65
    else if leb 97 b && leb b 122
    then (b - 97 + 13) % 26 + 97
    else b

-- The word that is written back for `c`: its low byte rotated, the others kept. In Rust `>>` binds
-- tighter than `&`, so the mask of the byte is `0xff00000000000000 >> 56`.
unfoldable pub rot13_word : ℕ → ℕ
rot13_word c =
    bit_or (bit_and c (2 ^ 64 - 1 - 0xff))
      (rot13_byte (bit_and c (0xff00_0000_0000_0000 / 2 ^ 56) % 256))

module _ (H : Host) where
  -- The round of the loop for the byte at `addr`
  unfoldable pub rot13_at : ℕ → Method H (Unit {0})
  rot13_at addr = do
    pid ← self_pid H
    c ← os H (H.perform (ptrace_read pid addr))
    if rot13_word c == c then pure tt else os H (H.perform (ptrace_write pid addr (rot13_word c)))

  -- The rounds from `i` on
  unfoldable pub rot13_from : ℕ → ℕ → ℕ → Method H (Unit {0})
  rot13_from base_addr i zero = pure tt
  rot13_from base_addr i (suc rounds) = do
    addr ← from (add_u64 H.profile base_addr i)
    rot13_at addr
    rot13_from base_addr (i + 1) rounds

  unfoldable pub rot13 : ℕ → ℕ → Method H (Unit {0})
  unfolding rot13_from
  rot13 base_addr count = rot13_from base_addr 0 count
