-- ===== src/Procinfo/Listing/Terminal.antt =====
-- proctool/procinfo.rs: the process that is found for a terminal.
use process_magic.Prelude.{
  ℕ, ◌≡◌, ◌≢◌, refl, ◌∙◌, ap, sym, Bool, true, false, ◌&&◌, Bool-cases, inl, inr, List, [], ◌∷◌,
  ◌++◌, All, Option, none, some, arith, ◌==◌,
}
use mathlib.Core.Path.{subst}
use mathlib.Core.Bool.{false≢true}
use process_magic.Int.{ℤ}
use process_magic.Text.{Text, text_eq}
use process_magic.Procinfo.{ProcessInfo}
use process_magic.Procinfo.Listing.{find_terminal}

text_eq-eq : (s t : Text) → text_eq s t ≡ true → s ≡ t
unfolding text_eq
text_eq-eq [] [] h = refl
text_eq-eq [] (d ∷ t) h = absurd (false≢true h)
text_eq-eq (c ∷ s) [] h = absurd (false≢true h)
text_eq-eq (c ∷ s) (d ∷ t) h =
    let (e, rest) = both c d (text_eq s t) h in
    ap (λ x. x ∷ s) e ∙ ap (λ x. d ∷ x) (text_eq-eq s t rest)
  where
    both : (c d : ℕ) (b : Bool) → ((c == d) && b) ≡ true → (c ≡ d) × (b ≡ true)
    both c d b h = ground arith

text_eq_refl : (s : Text) → text_eq s s ≡ true
unfolding text_eq
text_eq_refl [] = refl
text_eq_refl (c ∷ s) = ground (arith, text_eq_refl s)

-- The first process of the list whose terminal is `path`.
abbrev pub IsFirstOn : Text → List ProcessInfo → ProcessInfo → Type 0
IsFirstOn path infos info = record {
  before : List ProcessInfo;
  after : List ProcessInfo;
  split : infos ≡ before ++ (info ∷ after);
  here : info.tty ≡ some path;
  none_before : All (λ other. other.tty ≢ some path) before;
}

-- What the outcome of the search says.
abbrev pub FindsFirst : Text → List ProcessInfo → Option ℤ → Type 0
FindsFirst path infos none = All (λ info. info.tty ≢ some path) infos
FindsFirst path infos (some pid) =
    (info : ProcessInfo) × IsFirstOn path infos info × (info.pid ≡ pid)

FindsFirst-later :
    (path : Text) (info : ProcessInfo) (infos : List ProcessInfo) (o : Option ℤ)
    → info.tty ≢ some path
    → FindsFirst path infos o
    → FindsFirst path (info ∷ infos) o
FindsFirst-later path info infos none away f = (away, f)
FindsFirst-later path info infos (some pid) away (found, first, e) = (
  found,
  record {
    before = info ∷ first.before;
    after = first.after;
    split = ap (λ t. info ∷ t) first.split;
    here = first.here;
    none_before = (away, first.none_before);
  },
  e,
)

-- one process, by its terminal
module _ (path : Text) (info : ProcessInfo) (infos : List ProcessInfo) where
  find_terminal-none :
      info.tty ≡ none → find_terminal path (info ∷ infos) ≡ find_terminal path infos
  unfolding find_terminal
  find_terminal-none e = ground (arith, e)

  find_terminal_other :
      (tty : Text)
      → info.tty ≡ some tty
      → text_eq path tty ≡ false
      → find_terminal path (info ∷ infos) ≡ find_terminal path infos
  unfolding find_terminal
  find_terminal_other tty e h = ground (arith, e, h)

  find_terminal_here :
      (tty : Text)
      → info.tty ≡ some tty
      → text_eq path tty ≡ true
      → find_terminal path (info ∷ infos) ≡ some info.pid
  unfolding find_terminal
  find_terminal_here tty e h = ground (arith, e, h)

  other_tty : (tty : Text) → info.tty ≡ some tty → text_eq path tty ≡ false → info.tty ≢ some path
  other_tty tty e h e' =
      let same : tty ≡ path = cc in
      absurd (false≢true (sym h ∙ (ap (text_eq path) same ∙ text_eq_refl path)))

-- If get_session_id_for_terminal finds no process, no process of the list is on the terminal; if
-- it finds one, what it returns is the pid of the first process of the list on the terminal.
pub find_terminal-FindsFirst :
    (path : Text) (infos : List ProcessInfo) → FindsFirst path infos (find_terminal path infos)
find_terminal-FindsFirst path [] = unfold find_terminal in tt
find_terminal-FindsFirst path (info ∷ infos) =
    by_tty info.tty refl (find_terminal-FindsFirst path infos)
  where
    by_tty :
        (o : Option Text)
        → info.tty ≡ o
        → FindsFirst path infos (find_terminal path infos)
        → FindsFirst path (info ∷ infos) (find_terminal path (info ∷ infos))
    by_tty none e rest =
        subst (FindsFirst path (info ∷ infos)) (sym (find_terminal-none path info infos e))
          (FindsFirst-later path info infos _ (λ h. cc) rest)
    by_tty (some tty) e rest = elim (Bool-cases (text_eq path tty)) [
      | inl same ↦
          subst (FindsFirst path (info ∷ infos))
            (sym (find_terminal_here path info infos tty e same))
            (
              info,
              record {
                before = [];
                after = infos;
                split = refl;
                here = e ∙ ap some (sym (text_eq-eq path tty same));
                none_before = tt;
              },
              refl,
            )
      | inr other ↦
          subst (FindsFirst path (info ∷ infos))
            (sym (find_terminal_other path info infos tty e other))
            (FindsFirst-later path info infos _ (other_tty path info infos tty e other) rest)
    ]
