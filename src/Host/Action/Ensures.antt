-- ===== src/Host/Action/Ensures.antt =====
-- What holds of the value of a result that is put together of several, where no call is made.
use process_magic.Prelude.{Result, ok, err, panic, unfinished, ◌>>=◌}
use process_magic.Host.Action.{Holds}

-- As a record, from which a result can be read off.
pub record Ensures {A : Type 0} (P : A → Type 0) (r : Result A) : Type 0 where
  pub holds : Holds P r

module _ {A B : Type 0} (Q : B → Type 0) where
  -- a part of which something is known
  pub Ensures-then :
      (P : A → Type 0) (r : Result A) (f : A → Result B)
      → Holds P r
      → ((a : A) → P a → Ensures Q (f a))
      → Ensures Q (r >>= f)
  Ensures-then P (ok a) f h k = k a h
  Ensures-then P (err e) f h k = record { holds = tt }
  Ensures-then P panic f h k = record { holds = tt }
  Ensures-then P unfinished f h k = record { holds = tt }

  -- one of which nothing is asked
  pub Ensures-any :
      (r : Result A) (f : A → Result B) → ((a : A) → Ensures Q (f a)) → Ensures Q (r >>= f)
  Ensures-any r f k = Ensures-then (λ _. Unit {0}) r f (any r) λ a _. k a
    where
      any : (r : Result A) → Holds (λ _. Unit {0}) r
      any (ok a) = tt
      any (err e) = tt
      any panic = tt
      any unfinished = tt
