-- ===== src/Terminals/Cleared.antt =====
-- proctool/terminals.rs: `clear_terminal`, where the calls on files return and keep a predicate.
use process_magic.Prelude.{ℕ, List, IsReturned, Result, ok, err, panic, unfinished}
use process_magic.Text.{Text}
use process_magic.Host.{Host, open_fd, write, write_only}
use process_magic.Host.Action.{Action, pure, ◌>>=◌}
use process_magic.Terminals.{clear_terminal}

-- The action returns, and keeps the predicate.
pub record IsCalm {S A : Type 0} (P : S → Type 0) (m : Action S A) : Type 0 where
  pub at : (s : S) → P s → IsReturned (m s).0 × P (m s).1

IsCalm-pure : {S A : Type 0} {P : S → Type 0} (a : A) → IsCalm {S = S} P (pure a)
IsCalm-pure a = record { at = λ s h. (tt, h) }

module _ {S A B : Type 0} {P : S → Type 0} where
  IsCalm-bind :
      (m : Action S A) (f : A → Action S B)
      → IsCalm P m
      → ((a : A) → IsCalm P (f a))
      → IsCalm P (m >>= f)
  IsCalm-bind m f km kf = record { at = λ s h. ends (m s).0 (m s).1 (km.at s h) }
    where
      ends :
          (r : Result A) (t : S)
          → IsReturned r × P t
          → let o : Result B × S = ((λ (_ : S). (r, t)) >>= f) t in IsReturned o.0 × P o.1
      ends (ok a) t (returned, h) = (kf a).at t h
      ends (err e) t (returned, h) = (tt, h)
      ends panic t (returned, h) = absurd returned
      ends unfinished t (returned, h) = absurd returned

pub clear_terminal-IsCalm :
    (H : Host) (P : H.State → Type 0) (tty : Text)
    → ((path : Text) → IsCalm P (H.perform (open_fd path write_only)))
    → ((fd : ℕ) (bytes : List ℕ) → IsCalm P (H.perform (write fd bytes)))
    → IsCalm P (clear_terminal H tty)
unfolding clear_terminal
clear_terminal-IsCalm H P tty opens writes =
    search (IsCalm-pure, IsCalm-bind, opens, writes) depth 12
