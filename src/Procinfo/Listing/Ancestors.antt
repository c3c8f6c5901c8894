-- ===== src/Procinfo/Listing/Ancestors.antt =====
-- proctool/procinfo.rs: the tree of a process and the processes above it.
use process_magic.Prelude.{ℕ, zero, suc, ◌+◌, ◌<◌, ◌≡◌, refl, arith, true, false, List, [], ◌∷◌, ok}
use mathlib.Core.List.{reverse}
use process_magic.Int.{ℤ, pos, int_eq}
use process_magic.Host.{Host, getsid}
use process_magic.Host.Action.{Action, pure, Holds, Holds-any, Holds-bind, ◌>>=◌}
use process_magic.Procinfo.{ProcessInfo}
use process_magic.Procinfo.Listing.{
  TreeLine, get_process_info, ancestors, tree_lines, print_process_tree,
}

-- The lines of a tree: each process two columns behind the one above it, and marked as a leader if
-- it leads its process group.
abbrev pub IsTree : ℕ → List ProcessInfo → List TreeLine → Type 0
IsTree indent [] [] = Unit
IsTree indent (info ∷ infos) (line ∷ lines) =
    (line.indent ≡ indent)
    × (line.info ≡ info)
    × (line.leader ≡ int_eq info.pid info.pgid)
    × IsTree (indent + 2) infos lines
IsTree indent _ _ = ⊥

module _ (H : Host) where
  -- The processes from one up to the root, each the parent of the one before, as they are read.
  pub data Chain : ℕ → ℤ → H.State → List ProcessInfo → H.State → Type 0 where
    root : {pid : ℤ} {s : H.State} → int_eq pid (pos 0) ≡ true → Chain 0 pid s [] s
    up :
        {n : ℕ} {pid : ℤ} {s t u : H.State} {info : ProcessInfo} {infos : List ProcessInfo}
        → int_eq pid (pos 0) ≡ false
        → get_process_info H pid s ≡ (ok info, t)
        → Chain n info.ppid t infos u
        → Chain (suc n) pid s (info ∷ infos) u

  ancestors-Chain :
      (n fuel : ℕ) (pid : ℤ) (s : H.State) (infos : List ProcessInfo) (u : H.State)
      → Chain n pid s infos u
      → n < fuel
      → ancestors H fuel pid s ≡ (ok infos, u)
  unfolding ancestors
  ancestors-Chain n zero pid s infos u c h = absurd (omega arith)
  ancestors-Chain zero (suc fuel) pid s infos u (root e) h = ground (arith, e)
  ancestors-Chain (suc n) (suc fuel) pid s infos u (up {info = info} {infos = above} e f c) h =
      ground (arith, e, f, ancestors-Chain n fuel info.ppid _ above u c (omega arith))

  tree_lines-IsTree :
      (indent : ℕ) (infos : List ProcessInfo) (s : H.State)
      → Holds (IsTree indent infos) (tree_lines H indent infos s).0
  unfolding tree_lines
  tree_lines-IsTree indent [] s = tt
  tree_lines-IsTree indent (info ∷ infos) s =
      Holds-any (IsTree indent (info ∷ infos)) (H.perform (getsid info.pid)) (rest) s λ sid t.
        Holds-bind (IsTree (indent + 2) infos) (IsTree indent (info ∷ infos))
          (tree_lines H (indent + 2) infos) (line sid) t (tree_lines-IsTree (indent + 2) infos t)
          λ below u h. (refl, refl, refl, h)
    where
      line : ℤ → List TreeLine → Action H.State (List TreeLine)
      line sid below = pure (
          record { indent = indent; info = info; leader = int_eq info.pid info.pgid; session = sid }
          ∷ below)

      rest : ℤ → Action H.State (List TreeLine)
      rest sid = tree_lines H (indent + 2) infos >>= line sid

  -- If n processes lead from the given one up to the root, and the fuel is more than n,
  -- print_process_tree reads them all and prints them from the root down, each two columns behind
  -- the one above it and marked as a leader if it leads its process group, unless the session of
  -- one cannot be had.
  pub print_process_tree-IsTree :
      (n : ℕ) (pid : ℤ) (s : H.State) (infos : List ProcessInfo) (u : H.State)
      → Chain n pid s infos u
      → n < H.fuel
      → (print_process_tree H pid s ≡ tree_lines H 0 (reverse infos) u)
        × Holds (IsTree 0 (reverse infos)) (print_process_tree H pid s).0
  unfolding print_process_tree
  print_process_tree-IsTree n pid s infos u c h =
      let e : print_process_tree H pid s ≡ tree_lines H 0 (reverse infos) u =
        ground (arith, ancestors-Chain n H.fuel pid s infos u c h) in
      (e, rw e (tree_lines-IsTree 0 (reverse infos) u))
