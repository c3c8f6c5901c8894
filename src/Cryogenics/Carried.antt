-- ===== src/Cryogenics/Carried.antt =====
-- proctool/cryogenics.rs: a process that is frozen, and thawed in a child.
use process_magic.Prelude.{ℕ, ◌+◌, ◌<◌, ◌≡◌, ◌∙◌, arith, true, false, List, [], ◌∷◌, map, ok, All}
use process_magic.Int.{ℤ}
use process_magic.Text.{codes}
use process_magic.Host.{Host, Registers, ptrace_getregset, open_mem}
use process_magic.Host.Machine.{TraceeMachine}
use process_magic.Host.Mapping.{IsRegion, apart, MemoryCalls}
use process_magic.Myprocfs.{MemoryMap}
use process_magic.Myprocfs.Files.{proc_path, is_skipped, read_memory_maps}
use process_magic.Myprocfs.Recorded.{
  MemoryFile, CanRecord, recorded, recorded-length, recorded-IsByte, recorded-memory, IsUnread,
  populate_memory-recorded, read_memory_maps-IsUnread,
}
use process_magic.Pcontroller.{
  ProcessController, Session, attach, get_registers, detach_and_stop, with_controller, new,
}
use process_magic.Pcontroller.Regions.{map_svc_region}
use process_magic.Pcontroller.Regions.Written.{IsRestorable, HasBytes}
use process_magic.Cryogenics.{ProcessState, freeze_with, freeze, thaw_with, saved_registers}
use process_magic.Cryogenics.Thawed.{IsApart, let_go, thaw_with-HasBytes}

-- A map for which there is room beside the instruction at `svc`.
abbrev pub HasRoom : ℕ → MemoryMap → Type 0
HasRoom svc m = IsRegion m.base_address m.size × (apart m.base_address m.size svc 4 ≡ true)

-- The calls of a freeze up to its reading of the memory, each with what it gives.
pub record Freezes (H : Host) (F : MemoryFile H) (pid : ℤ) (s : H.State) (r : Registers)
    (maps : List MemoryMap) : Type 1 where
  pub attached : H.State
  pub read : H.State
  pub stopped : Session H.State
  pub listed : H.State
  pub opened : H.State
  pub fd : ℕ
  pub offset : ℕ
  pub attaches :
      attach H (record { controller = new pid; os = s })
      ≡ (ok tt, record { controller = new pid; os = attached })
  pub getregset : H.perform (ptrace_getregset pid) attached ≡ (ok r, read)
  pub stops : detach_and_stop H (record { controller = new pid; os = read }) ≡ (ok tt, stopped)
  pub lists : read_memory_maps H pid stopped.os ≡ (ok maps, listed)
  pub opens : H.perform (open_mem (proc_path pid (codes "mem"))) listed ≡ (ok fd, opened)
  pub starts : F.At opened fd offset

module _ (H : Host) (F : MemoryFile H) where
  abbrev frozen : Registers → List MemoryMap → ProcessState
  frozen r maps = record {
    memory_maps = map (recorded H F) maps;
    regs = r.regs;
    sp = r.sp;
    pc = r.pc;
    pstate = r.pstate;
  }

  -- What a freeze returns: the registers, and the maps with the bytes of the process's memory.
  freeze-recorded :
      (pid : ℤ) (s : H.State) (r : Registers) (maps : List MemoryMap)
      → Freezes H F pid s r maps
      → All (CanRecord H F) maps
      → (freeze H pid s).0 ≡ ok (frozen r maps)
  unfolding freeze with_controller freeze_with get_registers
  freeze-recorded pid s r maps f can =
      let (u, populated) =
        populate_memory-recorded H F pid maps f.listed f.opened f.fd f.offset f.opens f.starts
          can in
      ground (arith, f.attaches, f.getregset, f.stops, f.lists, populated)

  recorded-IsRestorable :
      (svc : ℕ) (maps : List MemoryMap)
      → All IsUnread maps
      → All (HasRoom svc) maps
      → All (IsRestorable svc) (map (recorded H F) maps)
  recorded-IsRestorable svc [] u r = tt
  recorded-IsRestorable svc (m ∷ maps) (um, u) (rm, r) = (
    (rm.0, rm.1, recorded-length H F m um, recorded-IsByte H F m um),
    recorded-IsRestorable svc maps u r,
  )

  recorded-apart :
      (a n : ℕ) (maps : List MemoryMap)
      → All (λ k. apart a n k.base_address k.size ≡ true) maps
      → All (λ k. apart a n k.base_address k.size ≡ true) (map (recorded H F) maps)
  recorded-apart a n [] h = tt
  recorded-apart a n (m ∷ maps) (hm, h) = (hm, recorded-apart a n maps h)

  recorded-IsApart : (maps : List MemoryMap) → IsApart maps → IsApart (map (recorded H F) maps)
  recorded-IsApart [] h = tt
  recorded-IsApart (m ∷ maps) (hm, h) =
      (recorded-apart m.base_address m.size maps hm, recorded-IsApart maps h)

  module _ (G : Host) (c : ProcessController) (X : TraceeMachine G c.pid)
      (K : MemoryCalls G c.pid X) where
    -- A map whose memory the child has as the frozen process had it, unless it is one that is not read.
    abbrev pub IsCarried : G.State → MemoryMap → Type 0
    IsCarried t m =
        is_skipped m ≡ false
        → (i : ℕ) → i < m.size
        → X.memory.byte_at t (m.base_address + i) ≡ F.memory (m.base_address + i)

    recorded-IsCarried :
        (t : G.State) (maps : List MemoryMap)
        → All (HasBytes G c X K t) (map (recorded H F) maps)
        → All (IsCarried t) maps
    recorded-IsCarried t [] h = tt
    recorded-IsCarried t (m ∷ maps) (hm, h) = (
      λ wanted i lt. let (within, e) = recorded-memory H F m i wanted lt in hm i within ∙ e,
      recorded-IsCarried t maps h,
    )

    -- A process is frozen on one machine and thawed on the same or on another. If the calls of
    -- the freeze up to the reading of the memory end well and the memory of each map can be read,
    -- but for maps that are unreadable or [vvar]; and if the child has a page with svc
    -- instructions and is stopped, and the maps are whole pages of the user's address space,
    -- apart from the instruction and from one another; then freeze returns a state, and thaw of
    -- that state goes on to let the child go when the child is stopped, has exactly the registers
    -- of the process and, at every map but those, the bytes of the process's memory.
    pub thaw_with-freeze :
        (fuel : 0 < G.fuel) (svc : ℕ) (pid : ℤ) (s : H.State) (r : Registers)
        (maps : List MemoryMap) (start : Session G.State) (x : G.State)
        → Freezes H F pid s r maps
        → All (CanRecord H F) maps
        → All (HasRoom svc) maps
        → IsApart maps
        → map_svc_region G start ≡ (ok svc, record { controller = c; os = x })
        → X.tracee.IsStopped x
        → K.HasSvc x svc
        → (state : ProcessState) × (t : G.State) × ((freeze H pid s).0 ≡ ok state)
          × (thaw_with G state start ≡ let_go G c X K fuel svc (record { controller = c; os = t }))
          × X.tracee.IsStopped t
          × (X.tracee.registers t ≡ r)
          × All (IsCarried t) maps
    unfolding saved_registers
    thaw_with-freeze fuel svc pid s r maps start x f can room d e h i =
        let unread : All IsUnread maps =
          read_memory_maps-IsUnread H pid maps f.stopped.os f.listed f.lists in
        let (t, goes, stopped, regs, bytes) =
          thaw_with-HasBytes G c X K fuel svc (frozen r maps) start x e h i
            (recorded-IsRestorable svc maps unread room) (recorded-IsApart maps d) in
        (
          frozen r maps,
          t,
          freeze-recorded pid s r maps f can,
          goes,
          stopped,
          regs,
          recorded-IsCarried t maps bytes,
        )
