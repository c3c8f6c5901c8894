-- ===== src/Pcontroller/Syscalls/Cached.antt =====
-- proctool/pcontroller.rs: the memory maps that a controller keeps.
use mathlib.Core.Path.{subst}
use process_magic.Prelude.{
  ◌≡◌, refl, arith, List, some, Option-cases, inl, inr, Result, ok, err, panic, unfinished, unwrap,
}
use process_magic.Host.{Host}
use process_magic.Myprocfs.{MemoryMap}
use process_magic.Host.Action.{gets, from, ◌>>=◌, ◌>>◌}
use process_magic.Pcontroller.{Session, Method}
use process_magic.Pcontroller.Syscalls.{initialize_memory_maps, get_memory_maps}

module _ (H : Host) where
  -- kept maps are returned as they are
  pub get_memory_maps-kept :
      (s : Session H.State) (maps : List MemoryMap)
      → s.controller.memory_maps ≡ some maps
      → get_memory_maps H s ≡ (ok maps, s)
  unfolding get_memory_maps initialize_memory_maps
  get_memory_maps-kept s maps e = ground (arith, e)

  -- What is returned is kept.
  IsKept : Result (List MemoryMap) × Session H.State → Type 0
  IsKept (ok maps, t) = t.controller.memory_maps ≡ some maps
  IsKept _ = Unit

  read_cell : Method H (List MemoryMap)
  read_cell = gets (λ s. s.controller.memory_maps) >>= λ cell. from (unwrap cell)

  read_cell-IsKept :
      (r : Result (Unit {0})) (s t : Session H.State)
      → IsKept (((λ (_ : Session H.State). (r, t)) >> read_cell) s)
  unfolding IsKept read_cell
  read_cell-IsKept (ok a) s t = elim (Option-cases t.controller.memory_maps) [
    | inl e ↦ rw e tt
    | inr (maps, e) ↦ rw e refl
  ]
  read_cell-IsKept (err x) s t = tt
  read_cell-IsKept panic s t = tt
  read_cell-IsKept unfinished s t = tt

  get_memory_maps-IsKept : (s : Session H.State) → IsKept (get_memory_maps H s)
  unfolding get_memory_maps read_cell
  get_memory_maps-IsKept s =
      read_cell-IsKept (initialize_memory_maps H s).0 s (initialize_memory_maps H s).1

  -- When get_memory_maps returns maps, the controller keeps them, and a second call returns the
  -- same maps and changes nothing, neither the controller nor the machine.
  pub get_memory_maps-get_memory_maps :
      (s t : Session H.State) (maps : List MemoryMap)
      → get_memory_maps H s ≡ (ok maps, t)
      → (t.controller.memory_maps ≡ some maps) × (get_memory_maps H t ≡ (ok maps, t))
  get_memory_maps-get_memory_maps s t maps e =
      let kept : t.controller.memory_maps ≡ some maps =
        unfold IsKept in subst IsKept e (get_memory_maps-IsKept s) in
      (kept, get_memory_maps-kept t maps kept)
