-- ===== src/Pcontroller/Regions/Injecting.antt =====
-- proctool/pcontroller.rs: `inject_bytes` over what the kernel documents of the calls.
use process_magic.Prelude.{
  ℕ, ◌+◌, ◌-◌, ◌≤◌, ◌<◌, ◌≡◌, refl, ap, ◌∙◌, arith, true, List, [], ◌∷◌, some, ok, length, get_or,
  ltb, leb, ◌&&◌, if◌then◌else◌, All,
}
use Prim.Native.Nat.{bit_or}
use process_magic.Text.{codes}
use process_magic.Words.Bytes.{IsByte, slice, length-slice, slice-eq}
use process_magic.Host.{Host, Sysno, mmap_no}
use process_magic.Host.Machine.{TraceeMachine}
use process_magic.Host.Mapping.{MemoryCalls, outside}
use process_magic.Host.Mapping.New.{NewMemory, IsPlaced}
use process_magic.Myprocfs.{MemoryMap}
use process_magic.Pcontroller.{ProcessController, Session}
use process_magic.Pcontroller.Syscalls.{
  find_label, find_svc_instruction, find_svc_instruction_in_map, search_buffer, buffer_of,
  execute_syscall, prepare_syscall, execute_syscall_at_pc, minus_one,
}
use process_magic.Pcontroller.Syscalls.Cached.{get_memory_maps-kept}
use process_magic.Pcontroller.Regions.Restored.{
  call_registers, called, called_returns, called-IsStopped,
}
use process_magic.Pcontroller.Regions.{
  prot_read, prot_write, map_anonymous, map_private, inject_bytes, inject_bytes_at_addr,
}

-- The controller keeps the maps, among them [vdso], which holds the instruction at `svc`.
pub record Vdso (H : Host) (c : ProcessController) (svc : ℕ) : Type 0 where
  pub maps : List MemoryMap
  pub map : MemoryMap
  pub kept : c.memory_maps ≡ some maps
  pub found : find_label H (codes "[vdso]") maps ≡ some map
  pub below : map.base_address ≤ svc
  pub above : svc + 4 ≤ map.base_address + map.size

module _ (H : Host) (c : ProcessController) (X : TraceeMachine H c.pid) (K : MemoryCalls H c.pid X)
    (N : NewMemory H c.pid X K) (fuel : 0 < H.fuel) (svc : ℕ) (V : Vdso H c svc) where
  open X use {tracee, memory}
  open tracee use {IsStopped, registers}
  open memory use {byte_at}
  open K use {HasSvc, IsWritable, after_write, write}
  open N use {IsMapped, HasRoom, mmap_new, write-IsMapped, readv}
  open V use {map}

  abbrev at : H.State → Session H.State
  at s = record { controller = c; os = s }

  -- what is read of [vdso]
  abbrev pub vdso_bytes : H.State → List ℕ
  vdso_bytes s = buffer_of map.size (slice (byte_at s) map.base_address map.size)

  -- The tracee is stopped, and the search finds the instruction in its [vdso].
  pub record IsReady (s : H.State) : Type 0 where
    pub stopped : IsStopped s
    pub has_svc : HasSvc s svc
    pub mapped : (b : ℕ) → map.base_address ≤ b → b < map.base_address + map.size → IsMapped s b
    pub finds : search_buffer H.profile map.base_address (vdso_bytes s) ≡ ok svc

  pub find_svc_instruction-at :
      (s : H.State) → IsReady s → find_svc_instruction H (at s) ≡ (ok svc, at s)
  unfolding find_svc_instruction find_svc_instruction_in_map
  find_svc_instruction-at s r =
      let n : length (slice (byte_at s) map.base_address map.size) ≡ map.size =
        length-slice (byte_at s) map.base_address map.size in
      ground (
        arith,
        get_memory_maps-kept H (at s) V.maps V.kept,
        V.found,
        readv s map.base_address map.size r.mapped,
        r.finds,
        n,
        V.below,
        V.above,
      )

  -- A stopped tracee with all that was mapped as it was is ready too.
  pub IsReady-kept :
      (s t : H.State)
      → IsReady s
      → IsStopped t
      → HasSvc t svc
      → ((b : ℕ) → IsMapped s b → IsMapped t b × (byte_at t b ≡ byte_at s b))
      → IsReady t
  IsReady-kept s t r h i kept = record {
    stopped = h;
    has_svc = i;
    mapped = λ b lo hi. (kept b (r.mapped b lo hi)).0;
    finds =
        ap (λ read. search_buffer H.profile map.base_address (buffer_of map.size read))
          (slice-eq (byte_at s) (byte_at t) map.base_address map.size
            (λ b lo hi. (kept b (r.mapped b lo hi)).1))
        ∙ r.finds;
  }

  pub execute_syscall-at :
      (sysno : Sysno) (args : List ℕ) (s : H.State)
      → IsReady s
      → execute_syscall H sysno args (at s) ≡ execute_syscall_at_pc H sysno args svc (at s)
  unfolding execute_syscall prepare_syscall execute_syscall_at_pc
  execute_syscall-at sysno args s r = ground (arith, find_svc_instruction-at s r)

  module _ (bytes : List ℕ) (room : HasRoom (length bytes)) (are_bytes : All IsByte bytes) where
    abbrev pub mmap_args : List ℕ
    mmap_args =
        0
        ∷ length bytes
        ∷ bit_or prot_read prot_write
        ∷ bit_or map_anonymous map_private
        ∷ minus_one
        ∷ 0
        ∷ []

    -- behind the mmap, the address of the new memory, and behind the write
    abbrev pub fresh : H.State → H.State
    fresh = called H c X K fuel mmap_no mmap_args svc

    abbrev pub addr : H.State → ℕ
    addr s = (registers (fresh s)).regs 0

    some_bytes : 0 < length bytes
    some_bytes = N.HasRoom-positive (length bytes) room

    placed :
        (s : H.State) → IsReady s → IsPlaced H c.pid X K IsMapped s (fresh s) (length bytes) svc
    placed s r =
        mmap_new s (call_registers H c X K fuel mmap_no mmap_args svc s) r.stopped r.has_svc refl
          refl room refl refl refl refl

    abbrev pub injected : H.State → H.State
    injected s = after_write (fresh s) (addr s) bytes

    -- What has been mapped is as it was.
    abbrev pub Kept : H.State → H.State → Type 0
    Kept s t = (b : ℕ) → IsMapped s b → IsMapped t b × (byte_at t b ≡ byte_at s b)

    abbrev pub IsInjected : H.State → H.State → ℕ → Type 0
    IsInjected s t a =
        ((i : ℕ) → i < length bytes → IsMapped t (a + i) × (byte_at t (a + i) ≡ get_or bytes i 0))
        × Kept s t

    written-at :
        (s : H.State) (b : ℕ)
        → IsWritable (fresh s) (addr s) (length bytes)
        → byte_at (injected s) b ≡ (
            if leb (addr s) b && ltb b (addr s + length bytes)
            then get_or bytes (b - addr s) 0
            else byte_at (fresh s) b)
    written-at s b w =
        K.byte_at-write (fresh s) (addr s) (length bytes) bytes b w (omega arith) are_bytes

    pub injected-IsInjected : (s : H.State) → IsReady s → IsInjected s (injected s) (addr s)
    injected-IsInjected s r =
        let (moved, has_svc, writable, old, new) = placed s r in
        (
          λ i lt.
              let back : addr s + i - addr s ≡ i = omega arith in
              (
                write-IsMapped (fresh s) (addr s) bytes (addr s + i)
                    (new (addr s + i) (ground (arith, lt))),
                written-at s (addr s + i) writable
                    ∙ ground (arith, lt, ap (λ t. get_or bytes t 0) back),
              ),
          λ b m.
              let (out, still, same) = old b m in
              (
                write-IsMapped (fresh s) (addr s) bytes b still,
                written-at s b writable ∙ ground (arith, out, same),
              ),
        )

    pub inject_bytes-at :
        (s : H.State) → IsReady s → inject_bytes H bytes (at s) ≡ (ok (addr s), at (injected s))
    unfolding inject_bytes inject_bytes_at_addr
    inject_bytes-at s r =
        let (moved, has_svc, writable, old, new) = placed s r in
        ground (
          arith,
          some_bytes,
          execute_syscall-at mmap_no mmap_args s r,
          called_returns H c X K fuel mmap_no mmap_args svc s r.stopped (omega arith) moved,
          write (fresh s) (addr s) (length bytes) bytes
              (called-IsStopped H c X K fuel mmap_no mmap_args svc s r.stopped) writable
              (omega arith),
        )

    pub injected-IsReady : (s : H.State) → IsReady s → IsReady (injected s)
    injected-IsReady s r =
        let (moved, has_svc, writable, old, new) = placed s r in
        let (there, kept) = injected-IsInjected s r in
        let on_svc : (i : ℕ) → i < 4 → outside (addr s) (length bytes) (svc + i) ≡ true = λ i lt.
          (old (svc + i)
            (r.mapped (svc + i) (omega (arith, V.below)) (omega (arith, lt, V.above)))).0 in
        IsReady-kept s (injected s) r
          (K.write-IsStopped (fresh s) (addr s) bytes
            (called-IsStopped H c X K fuel mmap_no mmap_args svc s r.stopped))
          (K.write-HasSvc (fresh s) (addr s) bytes svc has_svc (
            ground (
              arith,
              some_bytes,
              on_svc 0 (omega arith),
              on_svc 1 (omega arith),
              on_svc 2 (omega arith),
              on_svc 3 (omega arith),
            )))
          kept
