-- ===== src/Words.antt =====
-- Rust's unsigned machine arithmetic. A `u64` is its value, below 2 ^ 64. What overflows panics
-- in a debug build and wraps around in a release build.
pub mod Bits
pub mod Bytes
use process_magic.Prelude.{
  ℕ, ◌+◌, ◌-◌, ◌%◌, ◌^◌, ◌≤◌, ◌<◌, ◌≡◌, Result, ok, panic, arith, ltb, leb, if◌then◌else◌,
}

pub data Profile : Type 0 where
  debug release : Profile

abbrev pub u64_mod : ℕ
u64_mod = 2 ^ 64

-- What a failed overflow check leaves.
abbrev pub overflowed : Profile → ℕ → Result ℕ
overflowed debug wrapped = panic
overflowed release wrapped = ok wrapped

-- `a + b` and `a - b` on `u64` (and on `usize`, which has 64 bits on the program's target)
unfoldable pub add_u64 : Profile → ℕ → ℕ → Result ℕ
add_u64 profile a b =
    if ltb (a + b) u64_mod then ok (a + b) else overflowed profile ((a + b) % u64_mod)

unfoldable pub sub_u64 : Profile → ℕ → ℕ → Result ℕ
sub_u64 profile a b =
    if leb b a then ok (a - b) else overflowed profile ((a + u64_mod - b) % u64_mod)

pub add_u64_fits : (p : Profile) (a b : ℕ) → a + b < u64_mod → add_u64 p a b ≡ ok (a + b)
unfolding add_u64
add_u64_fits p a b h = ground arith

pub sub_u64_fits : (p : Profile) (a b : ℕ) → b ≤ a → sub_u64 p a b ≡ ok (a - b)
unfolding sub_u64
sub_u64_fits p a b h = ground arith
