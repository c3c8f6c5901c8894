-- ===== src/Pcontroller/Syscalls/Loaded.antt =====
-- The registers of a prepared system call.
use process_magic.Prelude.{
  ℕ, zero, suc, ◌+◌, ◌-◌, ◌≤◌, ◌<◌, ◌≡◌, ap, ◌∙◌, fun_ext, lt→ltb, ◌&&◌, List, [], ◌∷◌, arith, ok,
  panic, length, get_or, ltb, leb, if◌then◌else◌,
}
use process_magic.Pcontroller.Syscalls.{update, load_args}

-- The registers with the arguments from register `i` on.
abbrev pub loaded : ℕ → List ℕ → (ℕ → ℕ) → ℕ → ℕ
loaded i args regs j = if leb i j && ltb j (i + length args) then get_or args (j - i) 0 else regs j

get_or_cons : (k a : ℕ) (args : List ℕ) → 0 < k → get_or (a ∷ args) k 0 ≡ get_or args (k - 1) 0
get_or_cons zero a args h = absurd (omega arith)
get_or_cons (suc k) a args h = let e : suc k - 1 ≡ k = omega arith in rw e

get_or_here : (k a : ℕ) (args : List ℕ) → k ≡ 0 → get_or (a ∷ args) k 0 ≡ a
get_or_here k a args h = rw h

loaded_step :
    (i j a : ℕ) (args : List ℕ) (regs : ℕ → ℕ)
    → loaded (suc i) args (update regs i a) j ≡ loaded i (a ∷ args) regs j
loaded_step i j a args regs = ground (
  arith,
  get_or_cons (j - i) a args,
  ap (λ t. get_or args t 0) (let e : j - i - 1 ≡ j - suc i = omega arith in e),
  get_or_here (j - i) a args,
)

loaded-nil : (i : ℕ) (regs : ℕ → ℕ) (j : ℕ) → regs j ≡ loaded i [] regs j
loaded-nil i regs j = ground arith

-- Arguments that fit the array are put into consecutive registers.
pub load_args-loaded :
    (i : ℕ) (args : List ℕ) (regs : ℕ → ℕ)
    → i + length args ≤ 31
    → load_args i args regs ≡ ok (loaded i args regs)
unfolding load_args
load_args-loaded i [] regs h = ap ok (fun_ext (loaded-nil i regs))
load_args-loaded i (a ∷ args) regs h = rw (lt→ltb i 31 (omega arith)) (
    load_args-loaded (suc i) args (update regs i a) (omega arith)
    ∙ ap ok (fun_ext λ j. loaded_step i j a args regs))

-- A 32nd argument is written out of bounds.
pub load_args_panics :
    (i : ℕ) (args : List ℕ) (regs : ℕ → ℕ)
    → i ≤ 31
    → 31 < i + length args
    → load_args i args regs ≡ panic
unfolding load_args
load_args_panics i [] regs h k = absurd (omega arith)
load_args_panics i (a ∷ args) regs h k =
    ground (arith, load_args_panics (suc i) args (update regs i a))
