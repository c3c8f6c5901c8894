-- ===== src/Host/Keeping.antt =====
-- Predicates on the state that code keeps, however it ends: one rule for each way to build an action.
use process_magic.Prelude.{
  Bool, true, false, Option, none, some, String, List, Arg, Result, ok, err, panic, unfinished,
  if◌then◌else◌,
}
use process_magic.Host.Action.{Action, pure, from, gets, fail, labelled, ignore_err, ◌>>=◌}

pub record Keeps {S A : Type 0} (P : S → Type 0) (m : Action S A) : Type 0 where
  pub at : (s : S) → P s → P (m s).1

module _ {S A : Type 0} {P : S → Type 0} where
  pub Keeps-pure : (a : A) → Keeps P (pure a)
  Keeps-pure a = record { at = λ s h. h }

  pub Keeps-from : (r : Result A) → Keeps P (from r)
  Keeps-from r = record { at = λ s h. h }

  pub Keeps-fail : (m : String) (args : List Arg) → Keeps {A = A} P (fail m args)
  Keeps-fail m args = record { at = λ s h. h }

  pub Keeps-gets : (f : S → A) → Keeps P (gets f)
  Keeps-gets f = record { at = λ s h. h }

  pub Keeps-labelled : (l : String) (m : Action S A) → Keeps P m → Keeps P (labelled l m)
  Keeps-labelled l m k = record { at = λ s h. k.at s h }

  pub Keeps-ignore_err : (m : Action S A) → Keeps P m → Keeps P (ignore_err m)
  Keeps-ignore_err m k = record { at = λ s h. ends (m s).0 (m s).1 (k.at s h) }
    where
      ends : (r : Result A) (t : S) → P t → P (ignore_err (λ (_ : S). (r, t)) t).1
      ends (ok a) t h = h
      ends (err e) t h = h
      ends panic t h = h
      ends unfinished t h = h

  pub Keeps-if :
      (b : Bool) (m n : Action S A) → Keeps P m → Keeps P n → Keeps P (if b then m else n)
  Keeps-if true m n km kn = km
  Keeps-if false m n km kn = kn

module _ {S A B : Type 0} {P : S → Type 0} where
  pub Keeps-bind :
      (m : Action S A) (f : A → Action S B)
      → Keeps P m
      → ((a : A) → Keeps P (f a))
      → Keeps P (m >>= f)
  Keeps-bind m f km kf = record { at = λ s h. ends (m s).0 (m s).1 (km.at s h) }
    where
      ends : (r : Result A) (t : S) → P t → P (((λ (_ : S). (r, t)) >>= f) t).1
      ends (ok a) t h = (kf a).at t h
      ends (err e) t h = h
      ends panic t h = h
      ends unfinished t h = h

-- The rest depends on a value that may not be there.
pub Keeps-Option :
    {S A B : Type 0} {P : S → Type 0} (o : Option B) (n : Action S A) (m : B → Action S A)
    → Keeps P n
    → ((b : B) → Keeps P (m b))
    → Keeps P (elim o [ none ↦ n | some b ↦ m b ])
Keeps-Option none n m kn km = kn
Keeps-Option (some b) n m kn km = km b

pub ruleset keeps_rules = (
  Keeps-pure, Keeps-from, Keeps-fail, Keeps-gets, Keeps-labelled, Keeps-ignore_err, Keeps-if,
  Keeps-bind, Keeps-Option,
)
