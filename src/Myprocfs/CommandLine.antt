-- ===== src/Myprocfs/CommandLine.antt =====
-- teleclient/myprocfs.rs: the arguments that `get_command_line` reads.
use process_magic.Prelude.{
  ℕ, ◌≡◌, refl, ap, ◌∙◌, false, List, [], ◌∷◌, ◌++◌, map, append_assoc, append-nil, All, ◌==◌,
}
use process_magic.Myprocfs.{split_command_line, command_line_args}

-- An argument: bytes other than zero.
abbrev pub IsArgument : List ℕ → Type 0
IsArgument = All (λ b. (b == 0) ≡ false)

-- The kernel ends every argument with a zero.
abbrev pub terminated : List ℕ → List ℕ
terminated arg = arg ++ (0 ∷ [])

abbrev pub command_line_bytes : List (List ℕ) → List ℕ
command_line_bytes [] = []
command_line_bytes (arg ∷ args) = arg ++ (0 ∷ command_line_bytes args)

split_arg :
    (arg rest current : List ℕ) (args : List (List ℕ))
    → IsArgument arg
    → split_command_line (arg ++ (0 ∷ rest)) current args
      ≡ split_command_line rest [] (args ++ (((current ++ arg) ++ (0 ∷ [])) ∷ []))
unfolding split_command_line
split_arg [] rest current args h =
    ap (λ t. split_command_line rest [] (args ++ ((t ++ (0 ∷ [])) ∷ []))) (rw append-nil)
split_arg (b ∷ arg) rest current args (hb, h) = rw hb (
    split_arg arg rest (current ++ (b ∷ [])) args h
    ∙ ap (λ t. split_command_line rest [] (args ++ ((t ++ (0 ∷ [])) ∷ []))) (rw append_assoc))

split_tail :
    (tail current : List ℕ) (args : List (List ℕ))
    → IsArgument tail
    → split_command_line tail current args ≡ args
unfolding split_command_line
split_tail [] current args h = refl
split_tail (b ∷ tail) current args (hb, h) = rw hb (split_tail tail (current ++ (b ∷ [])) args h)

split_args :
    (args : List (List ℕ)) (tail : List ℕ) (done : List (List ℕ))
    → All IsArgument args
    → IsArgument tail
    → split_command_line (command_line_bytes args ++ tail) [] done ≡ done ++ map terminated args
split_args [] tail done h ht = split_tail tail [] done ht ∙ rw append-nil
split_args (arg ∷ args) tail done (ha, h) ht =
    ap (λ t. split_command_line t [] done) (rw append_assoc)
    ∙ split_arg arg (command_line_bytes args ++ tail) [] done ha
    ∙ split_args args tail (done ++ (terminated arg ∷ [])) h ht
    ∙ rw append_assoc

-- From the bytes of arguments that hold no zero, each ended by one, get_command_line reads back
-- the arguments, each with its zero; bytes behind the last zero are dropped.
pub command_line_args-command_line_bytes :
    (args : List (List ℕ)) (tail : List ℕ)
    → All IsArgument args
    → IsArgument tail
    → command_line_args (command_line_bytes args ++ tail) ≡ map terminated args
unfolding command_line_args
command_line_args-command_line_bytes args tail h ht = split_args args tail [] h ht
