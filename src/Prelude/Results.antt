-- ===== src/Prelude/Results.antt =====
-- How a call of a Rust function ends: with a value, an `anyhow` error or a panic. A call that has
-- used up the rounds which the model allows its loops is `unfinished`.
use mathlib.Core.List.{List}
use mathlib.Core.Option.{Option, none, some}
use Prim.Native.Nat.{ℕ}
use Prim.Native.String.{String}

-- A value that a message prints.
pub data Arg : Type 0 where
  num : ℕ → Arg
  text : List ℕ → Arg

pub data IntErrorKind : Type 0 where
  empty invalid_digit pos_overflow neg_overflow : IntErrorKind

-- `errno` is an error of the system, of the standard library or of a crate, passed on by `?`.
-- `message` is `anyhow!("…", args)`, and `context` an `anyhow!("…: {}", args, e)` over an error.
pub data Error : Type 0 where
  errno : ℕ → Error
  parse_int : IntErrorKind → Error
  message : String → List Arg → Error
  context : String → List Arg → Error → Error

pub data Result {ℓ} (A : Type ℓ) : Type ℓ where
  ok : A → Result A
  err : Error → Result A
  panic : Result A
  unfinished : Result A

-- neither a panic nor a run that has used up its rounds
abbrev pub IsReturned {ℓ} : {A : Type ℓ} → Result A → Type 0
IsReturned (ok a) = Unit
IsReturned (err e) = Unit
IsReturned _ = ⊥

module _ {ℓ} {A : Type ℓ} where
  -- `r.map_err(|e| anyhow!("…: {}", e))`
  abbrev pub map_err : String → List Arg → Result A → Result A
  map_err s args (ok a) = ok a
  map_err s args (err e) = err (context s args e)
  map_err s args panic = panic
  map_err s args unfinished = unfinished

  -- `o.unwrap()`, and an index out of range
  abbrev pub unwrap : Option A → Result A
  unwrap none = panic
  unwrap (some a) = ok a

infixl 5 ◌>>=◌ ◌>>◌
abbrev pub ◌>>=◌ {ℓ κ} : {A : Type ℓ} {B : Type κ} → Result A → (A → Result B) → Result B
ok a >>= f = f a
err e >>= f = err e
panic >>= f = panic
unfinished >>= f = unfinished

abbrev pub ◌>>◌ {ℓ} : {B : Type ℓ} → Result (Unit {0}) → Result B → Result B
m >> k = m >>= λ _. k
