-- ===== src/Pcontroller/Regions/Restored.antt =====
-- proctool/pcontroller.rs: `map_and_fill_region` over what the kernel documents of the calls.
use mathlib.Core.Path.{subst}
use process_magic.Prelude.{
  ℕ, ◌+◌, ◌≤◌, ◌<◌, ◌≡◌, ◌≢◌, refl, sym, ap, ◌∙◌, Bool, true, false, not, List, [], ◌∷◌, arith, ok,
  length, if◌then◌else◌, Bool-cases, inl, inr,
}
use Prim.Native.Nat.{bit_and, bit_or}
use process_magic.Host.{Host, Registers, Sysno, mmap_no, munmap_no, mprotect_no}
use process_magic.Host.Machine.{TraceeMachine}
use process_magic.Host.Mapping.{behind, MemoryCalls}
use process_magic.Myprocfs.{MemoryMap}
use process_magic.Pcontroller.{ProcessController, Session}
use process_magic.Pcontroller.Syscalls.{execute_syscall_at_pc, minus_one}
use process_magic.Pcontroller.Syscalls.Execute.{syscall_registers, execute_syscall_at_pc_lem}
use process_magic.Pcontroller.Regions.Written.{IsRestorable, HasBytes, GoesOn, filled, filled_lem}
use process_magic.Pcontroller.Regions.{
  prot_of, prot_write, map_anonymous, map_private, protect_region, map_and_fill_region,
}

prot_of-writes : (m : MemoryMap) → bit_and (bit_or (prot_of m) prot_write) 2 ≡ 2
unfolding prot_of
prot_of-writes m = writes m.readable m.writable m.executable
  where
    writes :
        (r w x : Bool)
        → let prot : ℕ = if r then bit_or 0 1 else 0 in
          let prot : ℕ = if w then bit_or prot 2 else prot in
          let prot : ℕ = if x then bit_or prot 4 else prot in bit_and (bit_or prot 2) 2 ≡ 2
    writes true true true = refl
    writes true true false = refl
    writes true false true = refl
    writes true false false = refl
    writes false true true = refl
    writes false true false = refl
    writes false false true = refl
    writes false false false = refl

module _ (H : Host) (c : ProcessController) (X : TraceeMachine H c.pid) (K : MemoryCalls H c.pid X)
    (fuel : 0 < H.fuel) where
  open X use {tracee, memory}
  open tracee use {IsStopped, registers, setregset-IsStopped, step-IsStopped}
  open memory use {byte_at}
  open K use {HasSvc, IsFree, IsWritable, munmap, mmap, mprotect, after_write, write}

  abbrev pub at : H.State → Session H.State
  at s = record { controller = c; os = s }

  -- the tracee behind a call
  abbrev pub call_registers : Sysno → List ℕ → ℕ → H.State → Registers
  call_registers sysno args svc s = syscall_registers H sysno args svc (registers s)

  abbrev pub called : Sysno → List ℕ → ℕ → H.State → H.State
  called sysno args svc s = behind H c.pid X s (call_registers sysno args svc s)

  pub called-IsStopped :
      (sysno : Sysno) (args : List ℕ) (svc : ℕ) (s : H.State)
      → IsStopped s
      → IsStopped (called sysno args svc s)
  called-IsStopped sysno args svc s h = step-IsStopped _ (setregset-IsStopped s _ h)

  pub called_returns :
      (sysno : Sysno) (args : List ℕ) (svc : ℕ) (s : H.State)
      → IsStopped s
      → length args ≤ 8
      → (registers (called sysno args svc s)).pc ≢ svc
      → execute_syscall_at_pc H sysno args svc (at s)
        ≡ (ok ((registers (called sysno args svc s)).regs 0), at (called sysno args svc s))
  called_returns sysno args svc s h few moved =
      execute_syscall_at_pc_lem H c tracee sysno args svc 0 s h few fuel
        (λ j hj. absurd (omega arith)) moved

  module _ (svc : ℕ) (m : MemoryMap) (r : IsRestorable svc m) where
    abbrev unmapped : H.State → H.State
    unmapped = called munmap_no (m.base_address ∷ m.size ∷ []) svc

    abbrev mmap_args : List ℕ
    mmap_args =
        m.base_address
        ∷ m.size
        ∷ bit_or (prot_of m) prot_write
        ∷ bit_or map_anonymous map_private
        ∷ minus_one
        ∷ 0
        ∷ []

    abbrev mapped : H.State → H.State
    mapped = called mmap_no mmap_args svc

    abbrev mprotect_args : List ℕ
    mprotect_args = m.base_address ∷ m.size ∷ prot_of m ∷ []

    abbrev protected : H.State → H.State
    protected s = if not m.writable then called mprotect_no mprotect_args svc s else s

    unmapped_lem :
        (s : H.State)
        → IsStopped s
        → HasSvc s svc
        → GoesOn H c X K svc m.base_address m.size s (unmapped s)
          × IsFree (unmapped s) m.base_address m.size
          × ((registers (unmapped s)).pc ≢ svc)
    unmapped_lem s h i =
        let (ran, there, free) =
          munmap s (call_registers munmap_no (m.base_address ∷ m.size ∷ []) svc s) h i
            (refl, r.0, r.1) in
        (
          (called-IsStopped munmap_no (m.base_address ∷ m.size ∷ []) svc s h, there, ran.1),
          free,
          ran.0,
        )

    mapped_lem :
        (s : H.State)
        → IsStopped s
        → HasSvc s svc
        → IsFree s m.base_address m.size
        → GoesOn H c X K svc m.base_address m.size s (mapped s)
          × IsWritable (mapped s) m.base_address m.size
          × ((registers (mapped s)).regs 0 ≡ m.base_address)
          × ((registers (mapped s)).pc ≢ svc)
    mapped_lem s h i free =
        let (ran, there, writable, x0) =
          mmap s (call_registers mmap_no mmap_args svc s) h i (refl, r.0, r.1) free
            (prot_of-writes m) refl refl refl in
        ((called-IsStopped mmap_no mmap_args svc s h, there, ran.1), writable, x0, ran.0)

    protect_region-writable :
        (s : H.State) → m.writable ≡ true → protect_region H svc m (at s) ≡ (ok tt, at s)
    unfolding protect_region
    protect_region-writable s w = rw w

    protect_region-read_only :
        (s : H.State)
        → m.writable ≡ false
        → IsStopped s
        → (registers (called mprotect_no mprotect_args svc s)).pc ≢ svc
        → protect_region H svc m (at s) ≡ (ok tt, at (called mprotect_no mprotect_args svc s))
    unfolding protect_region
    protect_region-read_only s w h moved =
        ground (arith, w, called_returns mprotect_no mprotect_args svc s h (omega arith) moved)

    protected_lem :
        (s : H.State)
        → IsStopped s
        → HasSvc s svc
        → (protect_region H svc m (at s) ≡ (ok tt, at (protected s)))
          × GoesOn H c X K svc m.base_address 0 s (protected s)
    protected_lem s h i = elim (Bool-cases m.writable) [
      | inl w ↦ subst Done (sym (ap by w)) (protect_region-writable s w, (h, i, λ b _. refl))
      | inr w ↦
          let (ran, there) =
            mprotect s (call_registers mprotect_no mprotect_args svc s) h i (refl, r.0, r.1) in
          subst Done (sym (ap by w)) (
            protect_region-read_only s w h ran.0,
            (called-IsStopped mprotect_no mprotect_args svc s h, there, ran.1),
          )
    ]
      where
        by : Bool → H.State
        by w = if not w then called mprotect_no mprotect_args svc s else s

        Done : H.State → Type 0
        Done t =
            (protect_region H svc m (at s) ≡ (ok tt, at t))
            × GoesOn H c X K svc m.base_address 0 s t

    -- the tracee when the map is back
    abbrev pub restored : H.State → H.State
    restored s = protected (filled H c X K svc m r (mapped (unmapped s)))

    -- For a stopped tracee and whole pages of the user's address space beside the svc instruction,
    -- map_and_fill_region ends well and leaves the tracee stopped; the bytes of the map begin the
    -- region, the instruction is still there, and no byte outside the region has changed.
    pub map_and_fill_region-HasBytes :
        (s : H.State)
        → IsStopped s
        → HasSvc s svc
        → (map_and_fill_region H svc m (at s) ≡ (ok tt, at (restored s)))
          × GoesOn H c X K svc m.base_address m.size s (restored s)
          × HasBytes H c X K (restored s) m
    unfolding map_and_fill_region
    map_and_fill_region-HasBytes s h i =
        let (g1, free, moved1) = unmapped_lem s h i in
        let s1 : H.State = unmapped s in
        let (g2, writable, x0, moved2) = mapped_lem s1 g1.0 g1.1 free in
        let s2 : H.State = mapped s1 in
        let (e3, g3, bytes) = filled_lem H c X K svc m r s2 g2.0 g2.1 writable in
        let s3 : H.State = filled H c X K svc m r s2 in
        let (e4, g4) = protected_lem s3 g3.0 g3.1 in
        (
          ground (
            arith,
            called_returns munmap_no (m.base_address ∷ m.size ∷ []) svc s h (omega arith) moved1,
            called_returns mmap_no mmap_args svc s1 g1.0 (omega arith) moved2,
            x0,
            r.0,
            e3,
            e4,
          ),
          (g4.0, g4.1, λ b o. g4.2 b (ground arith) ∙ g3.2 b o ∙ g2.2 b o ∙ g1.2 b o),
          λ j lt. g4.2 (m.base_address + j) (ground arith) ∙ bytes j lt,
        )
