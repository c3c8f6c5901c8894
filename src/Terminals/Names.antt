-- ===== src/Terminals/Names.antt =====
-- What `normalize_tty` returns.
use process_magic.Prelude.{◌≡◌, true, ◌++◌, ok, Bool-cases, inl, inr}
use process_magic.Text.{Text, codes, starts_with}
use process_magic.Terminals.{normalize_tty}

accepted :
    (path : Text) → starts_with path (codes "/dev/pts/") ≡ true → normalize_tty path ≡ ok path
unfolding normalize_tty
accepted path h = rw h

prefixed :
    (tty : Text)
    → starts_with tty (codes "pts/") ≡ true
    → starts_with (codes "/dev/" ++ tty) (codes "/dev/pts/") ≡ true
unfolding starts_with
prefixed tty h = h

result_prefix :
    (tty path : Text) → normalize_tty tty ≡ ok path → starts_with path (codes "/dev/pts/") ≡ true
unfolding normalize_tty
result_prefix tty path h = elim (Bool-cases (starts_with tty (codes "/dev/pts/"))) [
  | inl whole ↦ let e : tty ≡ path = cc (rw whole at h) in rw (← e) whole
  | inr other ↦ elim (Bool-cases (starts_with tty (codes "pts/"))) [
    | inl short ↦
        let e : codes "/dev/" ++ tty ≡ path = cc (rw (other, short) at h) in
        rw (← e) (prefixed tty short)
    | inr neither ↦ cc (rw (other, neither) at h)
  ]
]

-- A name that normalize_tty accepts becomes a path below /dev/pts/, and that path is accepted
-- unchanged.
pub normalize_tty_idem :
    (tty path : Text)
    → normalize_tty tty ≡ ok path
    → (starts_with path (codes "/dev/pts/") ≡ true) × (normalize_tty path ≡ ok path)
normalize_tty_idem tty path h =
    let begins : starts_with path (codes "/dev/pts/") ≡ true = result_prefix tty path h in
    (begins, accepted path begins)
