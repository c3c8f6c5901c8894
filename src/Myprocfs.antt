-- ===== src/Myprocfs.antt =====
-- teleclient/myprocfs.rs: the memory maps of a process, and how the lines of /proc/PID/maps and
-- the bytes of /proc/PID/cmdline are read. The reads of the files themselves are in
-- Myprocfs/Files.antt.
pub mod Line
pub mod Lines
pub mod Files
pub mod CommandLine
pub mod Filled
pub mod Fits
pub mod Recorded
use process_magic.Prelude.{
  ℕ, suc, not, ◌+◌, ◌-◌, ◌^◌, String, Bool, true, false, Option, none, some, List, [], ◌∷◌, ◌++◌,
  Error, message, num, Result, ok, err, panic, map_err, unwrap, ◌>>=◌, ◌==◌, if◌then◌else◌,
  get_elem?, length, take, drop,
}
use process_magic.Text.{
  Text, codes, is_whitespace, splitn, trim, parse_unsigned, max_u64, text_eq, byte_len, show_dec,
  show_hex,
}
use process_magic.Words.{Profile, add_u64, sub_u64}

pub record MemoryMap : Type 0 where
  pub base_address : ℕ
  pub size : ℕ
  pub label : Text
  pub readable : Bool
  pub writable : Bool
  pub executable : Bool
  pub private : Bool
  pub bytes : List ℕ

-- `v[i]`
abbrev pub index {ℓ} : {A : Type ℓ} → List A → ℕ → Result A
index xs i = unwrap (get_elem? xs i)

-- the pattern `"-"`
abbrev is_dash : ℕ → Bool
is_dash c = c == b'-'

unfoldable pub parse_byte_range : Profile → Text → Result (ℕ × ℕ)
parse_byte_range profile byte_range = do
  let parts = splitn is_dash 2 byte_range
  first ← index parts 0
  start_address ← map_err "could not parse byte range start" [] (parse_unsigned 16 max_u64 first)
  second ← index parts 1
  end_address ← map_err "could not parse byte range end" [] (parse_unsigned 16 max_u64 second)
  size ← sub_u64 profile end_address start_address
  ok (start_address, size)

unfoldable pub parse_permissions : Text → Result (Bool × Bool × Bool × Bool)
parse_permissions permissions =
    if not (length permissions == 4)
    then err (
        message "expected permissions field to be exactly 4 chars long, got {}"
          (num (byte_len permissions) ∷ []))
    else do
      c0 ← index permissions 0
      c1 ← index permissions 1
      c2 ← index permissions 2
      c3 ← index permissions 3
      ok (c0 == b'r', c1 == b'w', c2 == b'x', c3 == b'p')

unfoldable pub parse_map_line : Profile → Text → Result MemoryMap
parse_map_line profile line = do
  let parts = splitn is_whitespace 6 line
  byte_range ← index parts 0
  permissions ← index parts 1
  label ← index parts 5
  range ← parse_byte_range profile byte_range
  flags ← parse_permissions permissions
  ok (record {
    base_address = range.0;
    size = range.1;
    label = trim label;
    readable = flags.0;
    writable = flags.1;
    executable = flags.2;
    private = flags.3;
    bytes = [];
  })

-- `{:#x}`
abbrev pub show_hex_prefixed : ℕ → Text
show_hex_prefixed n = b'0' ∷ b'x' ∷ show_hex n

-- `impl fmt::Display for MemoryMap`
unfoldable pub fmt_memory_map : Profile → MemoryMap → Result Text
unfolding add_u64
fmt_memory_map profile self = do
  end ← add_u64 profile self.base_address self.size
  ok (
      codes "mapping from "
      ++ (show_hex_prefixed self.base_address
          ++ (codes " to "
              ++ (show_hex_prefixed end
                  ++ (codes " (size="
                      ++ (show_dec self.size
                          ++ (codes ") "
                              ++ ((if self.readable then codes "r" else codes "-")
                                  ++ ((if self.writable then codes "w" else codes "-")
                                      ++ ((if self.executable then codes "x" else codes "-")
                                          ++ ((if self.private then codes "p" else codes "-")
                                              ++ (if text_eq self.label []
                                                  then []
                                                  else codes " ("
                                                    ++ (self.label ++ codes ")")))))))))))))

-- The loop of `get_command_line`: `current` is `buf[start..i]`, and a part is pushed with the zero
-- that ends it.
split_command_line : List ℕ → List ℕ → List (List ℕ) → List (List ℕ)
split_command_line [] current args = args
split_command_line (b ∷ buf) current args =
    let ended = split_command_line buf [] (args ++ ((current ++ (b ∷ [])) ∷ [])) in
    let more = split_command_line buf (current ++ (b ∷ [])) args in if b == 0 then ended else more

-- What `get_command_line` makes of the bytes of the file.
unfoldable pub command_line_args : List ℕ → List (List ℕ)
unfolding split_command_line
command_line_args buf = split_command_line buf [] []
