-- ===== src/Procinfo/Listing/Groups.antt =====
-- What `get_all_groups` makes of the processes.
use process_magic.Prelude.{
  ◌≡◌, refl, ◌∙◌, ap, List, [], ◌∷◌, ◌++◌, append_assoc, append-nil, map, false, All, All-append,
}
use process_magic.Int.{ℤ, int_eq}
use process_magic.Procinfo.{ProcessInfo}
use process_magic.Procinfo.Listing.{push_at, group_by_pid}

abbrev Groups : Type 0
Groups = List (ℤ × List ProcessInfo)

-- No group of the list has the key.
abbrev IsFresh : ℤ → Groups → Type 0
IsFresh key = All (λ g. int_eq g.0 key ≡ false)

-- No two processes of the list have one pid.
abbrev pub HasDistinctPids : List ProcessInfo → Type 0
HasDistinctPids [] = Unit
HasDistinctPids (info ∷ infos) =
    All (λ other. int_eq info.pid other.pid ≡ false) infos × HasDistinctPids infos

abbrev pub alone : ProcessInfo → ℤ × List ProcessInfo
alone info = (info.pid, info ∷ [])

push_at_fresh :
    (key : ℤ) (info : ProcessInfo) (groups : Groups)
    → IsFresh key groups
    → push_at key info groups ≡ groups ++ ((key, info ∷ []) ∷ [])
unfolding push_at
push_at_fresh key info [] h = refl
push_at_fresh key info ((k, v) ∷ groups) (hk, h) = rw (hk, push_at_fresh key info groups h)

-- A further group whose key is none of the others'.
All-IsFresh :
    (info : ProcessInfo) (groups : Groups) (infos : List ProcessInfo)
    → All (λ other. int_eq info.pid other.pid ≡ false) infos
    → All (λ other. IsFresh other.pid groups) infos
    → All (λ other. IsFresh other.pid (groups ++ (alone info ∷ []))) infos
All-IsFresh info groups [] d f = tt
All-IsFresh info groups (other ∷ infos) (hd, d) (hf, f) =
    (All-append _ groups (alone info ∷ []) hf (hd, tt), All-IsFresh info groups infos d f)

group_by_pid_onto :
    (infos : List ProcessInfo) (groups : Groups)
    → HasDistinctPids infos
    → All (λ other. IsFresh other.pid groups) infos
    → group_by_pid infos groups ≡ groups ++ map alone infos
unfolding group_by_pid
group_by_pid_onto [] groups d f = rw append-nil
group_by_pid_onto (info ∷ infos) groups (hd, d) (hf, f) =
    ap (group_by_pid infos) (push_at_fresh info.pid info groups hf)
    ∙ group_by_pid_onto infos (groups ++ (alone info ∷ [])) d (All-IsFresh info groups infos hd f)
    ∙ rw append_assoc

nothing_yet : (infos : List ProcessInfo) → All (λ other. IsFresh other.pid []) infos
nothing_yet [] = tt
nothing_yet (info ∷ infos) = (tt, nothing_yet infos)

-- For processes with distinct pids, every group that get_all_groups makes is one process under
-- its pid, whatever the process groups are.
pub group_by_pid-alone :
    (infos : List ProcessInfo) → HasDistinctPids infos → group_by_pid infos [] ≡ map alone infos
group_by_pid-alone infos d = group_by_pid_onto infos [] d (nothing_yet infos)
