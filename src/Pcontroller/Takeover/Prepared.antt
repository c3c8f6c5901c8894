-- ===== src/Pcontroller/Takeover/Prepared.antt =====
-- proctool/pcontroller.rs: what a process is about to run when `takeover` lets it go.
use process_magic.Prelude.{
  ℕ, ◌+◌, ◌<◌, ◌≡◌, ap, ◌∙◌, arith, Bool, not, List, [], ◌∷◌, ◌++◌, ok, length, get_or, All,
  All-append, if◌then◌else◌,
}
use process_magic.Text.{Text}
use process_magic.Utf8.{as_bytes}
use process_magic.Utf8.Encoded.{IsScalar}
use process_magic.Words.Bytes.{IsByte}
use process_magic.Host.{Host}
use process_magic.Host.Action.{◌>>◌}
use process_magic.Host.Machine.{TraceeMachine}
use process_magic.Host.Mapping.{MemoryCalls}
use process_magic.Host.Mapping.New.{NewMemory}
use process_magic.Pcontroller.{
  ProcessController, Session, Method, attach, ensure_not_in_syscall, detach, detach_and_stop,
}
use process_magic.Pcontroller.Syscalls.{get_memory_maps}
use process_magic.Pcontroller.Colorize.Padded.{as_bytes-bytes}
use process_magic.Pcontroller.Regions.Injecting.{
  Vdso, IsReady, addr, injected, inject_bytes-at, injected-IsReady, injected-IsInjected,
}
use process_magic.Pcontroller.Execve.{
  IsExecuting, executing, executing-IsExecuting, inject_bytes-cached, prepare_execve,
}
use process_magic.Pcontroller.Takeover.{takeover_with}

-- the name of the program as the process finds it
abbrev pub path_bytes : Text → List ℕ
path_bytes path = as_bytes (path ++ (0 ∷ []))

-- How the process is let go
abbrev pub let_go : (H : Host) → Bool → Method H (Unit {0})
let_go H pause = if not pause then ensure_not_in_syscall H >> detach H else detach_and_stop H

pub path_bytes-IsByte : (path : Text) → All IsScalar path → All IsByte (path_bytes path)
path_bytes-IsByte path h =
    as_bytes-bytes (path ++ (0 ∷ [])) (All-append IsScalar path (0 ∷ []) h (ground arith, tt))

module _ (H : Host) (c : ProcessController) (X : TraceeMachine H c.pid) (K : MemoryCalls H c.pid X)
    (N : NewMemory H c.pid X K) (fuel : 0 < H.fuel) (svc : ℕ) (V : Vdso H c svc) where
  open X use {tracee, memory}
  open tracee use {IsStopped, registers, after_setregset, registers-setregset, setregset-IsStopped}
  open memory use {byte_at}
  open N use {IsMapped, HasRoom}

  abbrev at : H.State → Session H.State
  at s = record { controller = c; os = s }

  -- What the tracee is to have: it is about to execute the program with empty arguments and an empty
  -- environment.
  abbrev pub IsPrepared : Text → ℕ → ℕ → H.State → Type 0
  IsPrepared path name empty t =
      IsExecuting H c X svc name empty empty t
      × ((i : ℕ)
          → i < length (path_bytes path)
          → byte_at t (name + i) ≡ get_or (path_bytes path) i 0)
      × (byte_at t empty ≡ 0)

  zero-IsByte : All IsByte (0 ∷ [])
  zero-IsByte = (omega arith, tt)

  module _ (path : Text) (scalars : All IsScalar path) (room : HasRoom (length (path_bytes path)))
      (one : HasRoom 1) (s : H.State) (r : IsReady H c X K N fuel svc V s) where
    abbrev bytes : List ℕ
    bytes = path_bytes path

    -- the name, the state behind its injection, and the same of the zero
    abbrev name : ℕ
    name = addr H c X K N fuel svc V bytes room (path_bytes-IsByte path scalars) s

    abbrev u : H.State
    u = injected H c X K N fuel svc V bytes room (path_bytes-IsByte path scalars) s

    abbrev empty : ℕ
    empty = addr H c X K N fuel svc V (0 ∷ []) one zero-IsByte u

    abbrev v : H.State
    v = injected H c X K N fuel svc V (0 ∷ []) one zero-IsByte u

    abbrev prepared : H.State
    prepared = executing H c X svc name empty empty v

    u-IsReady : IsReady H c X K N fuel svc V u
    u-IsReady =
        injected-IsReady H c X K N fuel svc V bytes room (path_bytes-IsByte path scalars) s r

    v-IsReady : IsReady H c X K N fuel svc V v
    v-IsReady = injected-IsReady H c X K N fuel svc V (0 ∷ []) one zero-IsByte u u-IsReady

    same : (b : ℕ) → byte_at prepared b ≡ byte_at v b
    same b = X.byte_at-setregset v _ b v-IsReady.stopped

    prepared-IsPrepared :
        IsPrepared path name empty prepared
        × ((b : ℕ) → IsMapped s b → byte_at prepared b ≡ byte_at s b)
    prepared-IsPrepared =
        let (named, kept) =
          injected-IsInjected H c X K N fuel svc V bytes room (path_bytes-IsByte path scalars) s
            r in
        let (zeroed, still) =
          injected-IsInjected H c X K N fuel svc V (0 ∷ []) one zero-IsByte u u-IsReady in
        let first : empty ≡ empty + 0 = omega arith in
        (
          (
            executing-IsExecuting H c X svc name empty empty v v-IsReady.stopped,
            λ i lt.
                let (mapped, is) = named i lt in same (name + i) ∙ (still (name + i) mapped).1 ∙ is,
            same empty ∙ ap (byte_at v) first ∙ (zeroed 0 (omega arith)).1,
          ),
          λ b m. let (mapped, is) = kept b m in same b ∙ (still b mapped).1 ∙ is,
        )

    takeover_with-prepared :
        (pause : Bool) (s0 s1 s2 : Session H.State)
        → attach H s0 ≡ (ok tt, s1)
        → ensure_not_in_syscall H s1 ≡ (ok tt, s2)
        → get_memory_maps H s2 ≡ (ok V.maps, at s)
        → takeover_with H path pause s0 ≡ let_go H pause (at prepared)
    unfolding takeover_with
    takeover_with-prepared pause s0 s1 s2 attached waited cached = ground (
      arith,
      attached,
      waited,
      inject_bytes-cached H bytes s2 (at s) svc V cached,
      inject_bytes-at H c X K N fuel svc V bytes room (path_bytes-IsByte path scalars) s r,
      inject_bytes-at H c X K N fuel svc V (0 ∷ []) one zero-IsByte u u-IsReady,
      prepare_execve H c X svc K N fuel V name empty empty v v-IsReady,
    )

  -- If the attach and the wait for the end of a system call end well, the maps can be read, the
  -- tracee is then stopped with an svc instruction in its [vdso], and the machine has room for
  -- the name and for one byte more, takeover goes on to let the process go in a state in which it
  -- is stopped at the svc instruction, about to execute the program: execve stands in x8, the
  -- name with a zero behind it at the address in x0, a zero at the one in x1 and x2, and no byte
  -- of the memory that was mapped before has changed.
  pub takeover_with-IsPrepared :
      (path : Text) (pause : Bool) (s0 s1 s2 : Session H.State) (s : H.State)
      → attach H s0 ≡ (ok tt, s1)
      → ensure_not_in_syscall H s1 ≡ (ok tt, s2)
      → get_memory_maps H s2 ≡ (ok V.maps, at s)
      → IsReady H c X K N fuel svc V s
      → All IsScalar path
      → HasRoom (length (path_bytes path))
      → HasRoom 1
      → (name : ℕ) × (empty : ℕ) × (t : H.State) × (takeover_with H path pause s0
          ≡ let_go H pause (at t))
        × IsPrepared path name empty t
        × ((b : ℕ) → IsMapped s b → byte_at t b ≡ byte_at s b)
  takeover_with-IsPrepared path pause s0 s1 s2 s attached waited cached r scalars room one =
      let (p, kept) = prepared-IsPrepared path scalars room one s r in
      (
        name path scalars room one s r,
        empty path scalars room one s r,
        prepared path scalars room one s r,
        takeover_with-prepared path scalars room one s r pause s0 s1 s2 attached waited cached,
        p,
        kept,
      )
