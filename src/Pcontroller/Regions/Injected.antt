-- ===== src/Pcontroller/Regions/Injected.antt =====
-- proctool/pcontroller.rs: the bytes that `inject_u64s` writes.
use process_magic.Prelude.{
  ℕ, zero, suc, ◌*◌, ◌^◌, ◌<◌, ◌≡◌, refl, ◌∙◌, ap, List, [], ◌∷◌, All, All-append, arith, length,
  take, drop, get_or,
}
use process_magic.Words.Bytes.{to_le, from_le, IsByte, to_le-IsByte}
use process_magic.Pcontroller.Regions.{u64s_bytes}

eight : (w : ℕ) → w < 2 ^ 64 → from_le (to_le 8 w) ≡ w
unfolding from_le to_le
eight w h = omega arith

-- Of numbers below 2^64, word number i of the bytes that inject_u64s writes is number i of the
-- list, for each index of the list.
pub u64s_bytes-word :
    (xs : List ℕ) (i : ℕ)
    → All (λ x. x < 2 ^ 64) xs
    → i < length xs
    → from_le (take 8 (drop (8 * i) (u64s_bytes xs))) ≡ get_or xs i 0
unfolding u64s_bytes to_le from_le
u64s_bytes-word [] i h hi = absurd (omega arith)
u64s_bytes-word (x ∷ xs) zero (hx, h) hi = eight x hx
u64s_bytes-word (x ∷ xs) (suc i) (hx, h) hi =
    let e : 8 * suc i ≡ suc (suc (suc (suc (suc (suc (suc (suc (8 * i)))))))) = omega arith in
    ap (λ k. from_le (take 8 (drop k (u64s_bytes (x ∷ xs))))) e
    ∙ u64s_bytes-word xs i h (omega arith)

pub length-u64s_bytes : (xs : List ℕ) → length (u64s_bytes xs) ≡ 8 * length xs
unfolding u64s_bytes to_le
length-u64s_bytes [] = refl
length-u64s_bytes (x ∷ xs) = omega (arith, length-u64s_bytes xs)

pub u64s_bytes-IsByte : (xs : List ℕ) → All IsByte (u64s_bytes xs)
unfolding u64s_bytes
u64s_bytes-IsByte [] = tt
u64s_bytes-IsByte (x ∷ xs) =
    All-append IsByte (to_le 8 x) (u64s_bytes xs) (to_le-IsByte 8 x) (u64s_bytes-IsByte xs)
