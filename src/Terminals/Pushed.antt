-- ===== src/Terminals/Pushed.antt =====
-- proctool/terminals.rs: what `write_to_stdin` pushes into a terminal.
use process_magic.Prelude.{
  ℕ, ◌≡◌, refl, sym, ◌∙◌, ap, arith, Bool, true, List, [], ◌∷◌, ◌++◌, map, append_assoc, IsReturned,
  Result, ok, err, panic, unfinished,
}
use mathlib.Core.Path.{subst}
use mathlib.Core.List.{reverse, reverse-cons, reverse-append, reverse-reverse, map-append}
use process_magic.Int.{ℤ}
use process_magic.Text.{Text, codes}
use process_magic.Utf8.{as_bytes}
use process_magic.Host.{Host, Call, open_fd, write_only, tiocsti, close}
use process_magic.Host.Action.{ignore_err, >>-assoc, ◌>>◌}
use process_magic.Host.Log.{Log, logged, is_ok}
use process_magic.Myprocfs.Files.{proc_path}
use process_magic.Terminals.{push_bytes, write_to_stdin}

-- The calls of a log, the newest first.
abbrev pub calls : Log → List Call
calls [] = []
calls ((c, done) ∷ log) = c ∷ calls log

-- the calls behind a push of bytes
abbrev pushed : ℕ → List ℕ → List Call → List Call
pushed fd [] before = before
pushed fd (b ∷ bytes) before = pushed fd bytes (tiocsti fd b ∷ before)

oldest_first :
    {A : Type 0} (first second last : A) (xs : List A)
    → reverse (last ∷ (second ∷ (reverse xs ++ (first ∷ []))))
      ≡ first ∷ (xs ++ (second ∷ (last ∷ [])))
oldest_first first second last xs =
    reverse-append (last ∷ (second ∷ [])) (reverse xs ++ (first ∷ []))
    ∙ ap (λ t. t ++ (second ∷ (last ∷ [])))
        (reverse-append (reverse xs) (first ∷ []) ∙ ap (λ t. first ∷ t) (reverse-reverse xs))

module _ (H : Host) (fd : ℕ)
    (answers : (b : ℕ) (s : H.State) → IsReturned (H.perform (tiocsti fd b) s).0) where
  -- one byte, whether or not it is taken
  push_one :
      {A : Type 0} (b : ℕ) (k : (logged H).State → Result A × (logged H).State)
      (P : Result A × (logged H).State → Type 0) (s : H.State) (log : Log)
      → ((t : H.State) (done : Bool) → P (k (t, (tiocsti fd b, done) ∷ log)))
      → P ((ignore_err ((logged H).perform (tiocsti fd b)) >> k) (s, log))
  push_one {A} b k P s log h = ends (H.perform (tiocsti fd b) s).0 _ (answers b s)
    where
      ends :
          (r : Result (Unit {0})) (t : H.State)
          → IsReturned r
          → P (
              (ignore_err (λ (_ : (logged H).State). (r, (t, (tiocsti fd b, is_ok r) ∷ log))) >> k)
                (s, log))
      ends (ok a) t returned = h t _
      ends (err e) t returned = h t _
      ends panic t returned = absurd returned
      ends unfinished t returned = absurd returned

  push_bytes_lem :
      {A : Type 0} (bytes : List ℕ) (k : (logged H).State → Result A × (logged H).State)
      (P : Result A × (logged H).State → Type 0) (s : H.State) (log : Log)
      → ((t : H.State) (log' : Log) → calls log' ≡ pushed fd bytes (calls log) → P (k (t, log')))
      → P ((push_bytes (logged H) fd bytes >> k) (s, log))
  unfolding push_bytes
  push_bytes_lem [] k P s log h = h s log refl
  push_bytes_lem (b ∷ bytes) k P s log h =
      subst P
        (sym (
          >>-assoc (ignore_err ((logged H).perform (tiocsti fd b))) (push_bytes (logged H) fd bytes)
            k (s, log)))
        (push_one b (push_bytes (logged H) fd bytes >> k) P s log
          λ t done. push_bytes_lem bytes k P t ((tiocsti fd b, done) ∷ log) h)

  pushed-reverse :
      (bytes : List ℕ) (before : List Call)
      → pushed fd bytes before ≡ reverse (map (tiocsti fd) bytes) ++ before
  pushed-reverse [] before = refl
  pushed-reverse (b ∷ bytes) before =
      pushed-reverse bytes (tiocsti fd b ∷ before)
      ∙ sym (
          ap (λ t. t ++ before) (reverse-cons (tiocsti fd b) (map (tiocsti fd) bytes))
          ∙ append_assoc (reverse (map (tiocsti fd) bytes)) (tiocsti fd b ∷ []) before)

  -- If the file of the standard input can be opened and the machine answers each push, be it with
  -- an error, write_to_stdin makes these calls and no other: it opens the file, pushes the bytes
  -- of the line in their order, each whether or not the one before was taken, and then a newline,
  -- and closes the file.
  pub write_to_stdin-calls :
      (pid : ℤ) (line : Text) (s t : H.State)
      → let path = proc_path pid (codes "fd/0") in
        H.perform (open_fd path write_only) s ≡ (ok fd, t)
        → reverse (calls (write_to_stdin (logged H) pid line (s, [])).1.1)
          ≡ open_fd (proc_path pid (codes "fd/0")) write_only
            ∷ (map (tiocsti fd) (as_bytes line ++ (10 ∷ [])) ++ (close fd ∷ []))
  unfolding write_to_stdin
  write_to_stdin-calls pid line s t opened = subst InOrder (sym begins) (
      push_bytes_lem (as_bytes line) last InOrder t _ λ u log e.
        push_one 10 ((logged H).perform (close fd)) InOrder u log λ v done. listed (calls log) e)
    where
      path : Text
      path = proc_path pid (codes "fd/0")

      last : (logged H).State → Result (Unit {0}) × (logged H).State
      last = ignore_err ((logged H).perform (tiocsti fd 10)) >> (logged H).perform (close fd)

      InOrder : Result (Unit {0}) × (logged H).State → Type 0
      InOrder r =
          reverse (calls r.1.1)
          ≡ open_fd path write_only
            ∷ (map (tiocsti fd) (as_bytes line ++ (10 ∷ [])) ++ (close fd ∷ []))

      begins :
          write_to_stdin (logged H) pid line (s, [])
          ≡ (push_bytes (logged H) fd (as_bytes line) >> last)
              (t, (open_fd path write_only, true) ∷ [])
      begins = ground (arith, opened)

      listed :
          (before : List Call)
          → before ≡ pushed fd (as_bytes line) (open_fd path write_only ∷ [])
          → reverse (close fd ∷ tiocsti fd 10 ∷ before)
            ≡ open_fd path write_only
              ∷ (map (tiocsti fd) (as_bytes line ++ (10 ∷ [])) ++ (close fd ∷ []))
      listed before e =
          rw (e, pushed-reverse)
            (oldest_first (open_fd path write_only) (tiocsti fd 10) (close fd)
                (map (tiocsti fd) (as_bytes line))
              ∙ sym (
                  ap (λ t. open_fd path write_only ∷ (t ++ (close fd ∷ [])))
                    (map-append (tiocsti fd) (as_bytes line) (10 ∷ []))
                  ∙ ap (λ t. open_fd path write_only ∷ t)
                      (append_assoc (map (tiocsti fd) (as_bytes line)) (tiocsti fd 10 ∷ [])
                        (close fd ∷ []))))
