-- ===== src/Host/Action.antt =====
-- Code that makes calls, over any state: it ends in some way and leaves a state, also when it fails.
pub mod Ensures
use mathlib.Core.Path.{subst}
use process_magic.Prelude.{
  String, List, [], Arg, message, Result, ok, err, panic, unfinished, map_err, ◌≡◌, refl,
}

abbrev pub Action : Type 0 → Type 0 → Type 0
Action S A = S → Result A × S

module _ {S A : Type 0} where
  abbrev pub pure : A → Action S A
  pure a s = (ok a, s)

  -- A result that needs no call.
  abbrev pub from : Result A → Action S A
  from r s = (r, s)

  abbrev pub gets : (S → A) → Action S A
  gets f s = (ok (f s), s)

  -- `return Err(anyhow!("…"))`
  abbrev pub fail : String → List Arg → Action S A
  fail m args s = (err (message m args), s)

  -- `e.map_err(|e| anyhow!("…: {}", e))`
  abbrev pub labelled : String → Action S A → Action S A
  labelled m x s = let (r, s') = x s in (map_err m [] r, s')

infixl 5 ◌>>=◌ ◌>>◌
abbrev pub ◌>>=◌ : {S A B : Type 0} → Action S A → (A → Action S B) → Action S B
◌>>=◌ m f s =
    let (r, s') = m s in
    elim r [
      | ok a ↦ f a s'
      | err e ↦ (err e, s')
      | panic ↦ (panic, s')
      | unfinished ↦ (unfinished, s')
    ]

-- The value of the first part is dropped.
abbrev pub ◌>>◌ : {S A B : Type 0} → Action S A → Action S B → Action S B
m >> k = m >>= λ _. k

abbrev pub modify : {S : Type 0} → (S → S) → Action S (Unit {0})
modify f s = (ok tt, f s)

-- `let _ = e;` drops an error; a panic goes on.
abbrev pub ignore_err : {S A : Type 0} → Action S A → Action S (Unit {0})
ignore_err m s =
    let (r, s') = m s in
    elim r [
      | ok a ↦ (ok tt, s')
      | err e ↦ (ok tt, s')
      | panic ↦ (panic, s')
      | unfinished ↦ (unfinished, s')
    ]

module _ {S A B : Type 0} where
  -- Sequencing is associative.
  pub >>-assoc :
      {C : Type 0} (m : Action S A) (k : Action S B) (l : Action S C) (s : S)
      → ((m >> k) >> l) s ≡ (m >> (k >> l)) s
  >>-assoc {C} m k l s = ends (m s).0 (m s).1
    where
      ends :
          (r : Result A) (t : S)
          → (((λ (_ : S). (r, t)) >> k) >> l) s ≡ ((λ (_ : S). (r, t)) >> (k >> l)) s
      ends (ok a) t = refl
      ends (err e) t = refl
      ends panic t = refl
      ends unfinished t = refl

-- What holds of the value, if there is one.
abbrev pub Holds : {A : Type 0} → (A → Type 0) → Result A → Type 0
Holds P (ok a) = P a
Holds P _ = Unit

-- a step of which nothing is asked
pub Holds-any :
    {S A B : Type 0} (Q : B → Type 0) (m : Action S A) (k : A → Action S B) (s : S)
    → ((a : A) (t : S) → Holds Q (k a t).0)
    → Holds Q ((m >>= k) s).0
Holds-any {S} {A} Q m k s step = ends (m s).0 (m s).1
  where
    ends : (r : Result A) (t : S) → Holds Q (((λ (_ : S). (r, t)) >>= k) s).0
    ends (ok a) t = step a t
    ends (err e) t = tt
    ends panic t = tt
    ends unfinished t = tt

pub Holds-bind :
    {S A B : Type 0} (P : A → Type 0) (Q : B → Type 0) (m : Action S A) (k : A → Action S B) (s : S)
    → Holds P (m s).0
    → ((a : A) (t : S) → P a → Holds Q (k a t).0)
    → Holds Q ((m >>= k) s).0
Holds-bind {S} {A} P Q m k s h step = ends (m s).0 (m s).1 h
  where
    ends : (r : Result A) (t : S) → Holds P r → Holds Q (((λ (_ : S). (r, t)) >>= k) s).0
    ends (ok a) t h = step a t h
    ends (err e) t h = tt
    ends panic t h = tt
    ends unfinished t h = tt

pub Holds-ok : {A : Type 0} (P : A → Type 0) (r : Result A) (a : A) → Holds P r → r ≡ ok a → P a
Holds-ok P (ok b) a h e = subst P (ok-inj e) h
  where
    ok-inj : {A : Type 0} {x y : A} → ok x ≡ ok y → x ≡ y
    ok-inj e = cc
Holds-ok P (err x) a h e = cc
Holds-ok P panic a h e = cc
Holds-ok P unfinished a h e = cc
