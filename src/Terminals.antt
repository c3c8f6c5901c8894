-- ===== src/Terminals.antt =====
-- proctool/terminals.rs: the terminals of processes.
pub mod Names
pub mod Spawned
pub mod Pushed
pub mod Cleared
use process_magic.Prelude.{
  ℕ, Bool, true, false, ◌||◌, ◌==◌, String, List, [], ◌∷◌, ◌++◌, Option, none, some, Error, errno,
  message, context, text, Result, ok, err, panic, unfinished, if◌then◌else◌,
}
use process_magic.Int.{ℤ}
use process_magic.Text.{Text, codes, show_dec, show_i32, starts_with}
use process_magic.Utf8.{as_bytes}
use process_magic.Myprocfs.Files.{proc_path}
use process_magic.Host.{Host, open_fd, tiocgwinsz, write_only, write, tiocsti, close, stat_tty}
use process_magic.Host.Action.{Action, pure, from, ignore_err, ◌>>=◌, ◌>>◌}

unfoldable pub normalize_tty : Text → Result Text
normalize_tty tty =
    if starts_with tty (codes "/dev/pts/")
    then ok tty
    else if starts_with tty (codes "pts/")
    then ok (codes "/dev/" ++ tty)
    else err (message "could not interpret {:?} as a TTY identifier" (text tty ∷ []))

-- `CString::new(text)?`: a text that holds a zero is refused.
unfoldable pub has_nul : Text → Bool
has_nul [] = false
has_nul (c ∷ cs) = (c == 0) || has_nul cs

unfoldable pub c_string : Text → Result Text
unfolding has_nul
c_string s = if has_nul s then err (errno 0) else ok s

-- `format!("/dev/pts/{}", n)`
abbrev pub pts_path : ℕ → Text
pts_path n = codes "/dev/pts/" ++ show_dec n

module _ (H : Host) where
  unfoldable pub get_terminal : ℤ → Action H.State Text
  get_terminal pid = do tty_nr ← H.perform (stat_tty pid); pure (pts_path tty_nr.1)

  -- The escape sequences that clear the screen, and that take the cursor to the top left.
  unfoldable pub clear_terminal : Text → Action H.State (Unit {0})
  clear_terminal pts = do
    f ← H.perform (open_fd pts write_only)
    H.perform (write f (27 ∷ 91 ∷ 50 ∷ 74 ∷ []))
    H.perform (write f (27 ∷ 91 ∷ 49 ∷ 59 ∷ 49 ∷ 72 ∷ []))
    pure tt

  -- returns (rows, columns). The sizes are zeros where `ioctl` fails, which is not looked at.
  unfoldable pub get_terminal_size : Text → Action H.State (ℕ × ℕ)
  get_terminal_size pts = do
    path ← from (c_string pts)
    fd ← H.perform (open_fd path write_only)
    λ s.
        let (r, t) = H.perform (tiocgwinsz fd) s in
        elim r [
          | ok winsize ↦ (ok winsize, t)
          | err e ↦ (ok (0, 0), t)
          | panic ↦ (panic, t)
          | unfinished ↦ (unfinished, t)
        ]

  -- `map_err(|_e| …)` of an open
  opened : Text → Action H.State ℕ → Action H.State ℕ
  opened fpath x s =
      let (r, s') = x s in
      elim r [
        | ok fd ↦ (ok fd, s')
        | err e ↦ (err (message "failed to open file {:?}" (text fpath ∷ [])), s')
        | panic ↦ (panic, s')
        | unfinished ↦ (unfinished, s')
      ]

  -- The bytes are pushed one by one, and what `ioctl` returns is not looked at.
  unfoldable pub push_bytes : ℕ → List ℕ → Action H.State (Unit {0})
  push_bytes fd [] = pure tt
  push_bytes fd (byte ∷ bytes) = do ignore_err (H.perform (tiocsti fd byte)); push_bytes fd bytes

  unfoldable pub write_to_stdin : ℤ → Text → Action H.State (Unit {0})
  unfolding opened
  write_to_stdin pid line = do
    let fpath = proc_path pid (codes "fd/0")
    fd ← opened fpath (H.perform (open_fd fpath write_only))
    push_bytes fd (as_bytes line)
    ignore_err (H.perform (tiocsti fd 0x0a))
    H.perform (close fd)
