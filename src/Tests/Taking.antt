-- ===== src/Tests/Taking.antt =====
-- A takeover of the process of the small machine.
use process_magic.Prelude.{some, ℕ, ◌<◌, ◌≡◌, refl, arith, true, [], ◌∷◌, ok, length, All}
use process_magic.Text.{Text, codes, text_eq}
use process_magic.Utf8.{as_bytes, encode_char}
use process_magic.Utf8.Encoded.{IsScalar}
use process_magic.Words.{add_u64}
use process_magic.Host.{Registers}
use process_magic.Host.Mapping.{behind}
use process_magic.Host.Mapping.New.{NewMemory, IsPlaced}
use process_magic.Pcontroller.{
  Session, attach, get_registers, step_and_wait, wait_for_pc, ensure_not_in_syscall,
}
use process_magic.Pcontroller.Syscalls.{
  get_memory_maps, initialize_memory_maps, find_label, search_buffer, find_svc, starts_with_svc,
}
use process_magic.Pcontroller.Regions.Injecting.{Vdso, IsReady}
use process_magic.Pcontroller.Takeover.{takeover_with}
use process_magic.Pcontroller.Takeover.Prepared.{
  let_go, IsPrepared, path_bytes, takeover_with-IsPrepared,
}
use process_magic.Tests.Machine.{Toy, toy_host, toy_machine, tracee_pid, bytes_of}
use process_magic.Tests.Serving.{vdso_session, vdso_map}
use process_magic.Tests.Mapping.{
  IsReady as IsAwake, toy-RanOn, toy-IsReady, toy_calls, controller, fuelled,
}

pub toy-IsPlaced :
    (s : Toy) (r : Registers)
    → IsAwake s r.pc
    → r.regs 8 ≡ 222
    → r.regs 0 ≡ 0
    → IsPlaced toy_host tracee_pid
        (toy_machine tracee_pid)
        toy_calls
        (λ t b. b < t.mapped_end)
        s
        (behind toy_host tracee_pid (toy_machine tracee_pid) s r)
        (r.regs 1)
        r.pc
toy-IsPlaced s r i number none = (
  (toy-RanOn s r 0 0 i).0,
  toy-IsReady s r i,
  tt,
  λ b m. (ground (arith, number, none, m), ground (arith, number, none, m), refl),
  λ b o. ground (arith, number, none, o),
)

abbrev pub toy_new : NewMemory toy_host tracee_pid (toy_machine tracee_pid) toy_calls
toy_new = record {
  IsMapped = λ s b. b < s.mapped_end;
  HasRoom = λ n. 0 < n;
  HasRoom-positive = λ n h. h;
  mmap_new = λ s r h i number none room prot x3 x4 x5. toy-IsPlaced s r i number none;
  setregset-IsMapped = λ s r b h i. i;
  write-IsMapped = λ s a bytes b h. h;
  readv = λ s a n h. refl;
}

pub vdso_is_labelled : find_label toy_host (codes "[vdso]") (vdso_map ∷ []) ≡ some vdso_map
unfolding find_label text_eq
vdso_is_labelled = refl

abbrev pub vdso : Vdso toy_host controller 8196
vdso = record {
  maps = vdso_map ∷ [];
  map = vdso_map;
  kept = refl;
  found = vdso_is_labelled;
  below = omega arith;
  above = omega arith;
}

abbrev attached : Session Toy
attached = (attach toy_host vdso_session).1

abbrev waited : Session Toy
waited = (ensure_not_in_syscall toy_host attached).1

started :
    (attach toy_host vdso_session ≡ (ok tt, attached))
    × (ensure_not_in_syscall toy_host attached ≡ (ok tt, waited))
    × (get_memory_maps toy_host waited
        ≡ (ok (vdso_map ∷ []), record { controller = controller; os = waited.os }))
unfolding attach ensure_not_in_syscall get_registers step_and_wait wait_for_pc get_memory_maps
    initialize_memory_maps
started = (refl, refl, refl)

is_ready :
    IsReady toy_host controller
      (toy_machine tracee_pid)
      toy_calls
      toy_new
      fuelled
      8196
      vdso
      waited.os
unfolding attach ensure_not_in_syscall get_registers step_and_wait wait_for_pc search_buffer
    find_svc starts_with_svc add_u64
is_ready = record {
  stopped = refl;
  has_svc = refl;
  mapped = λ b lo hi. omega (arith, hi);
  finds = refl;
}

abbrev program : Text
program = codes "/bin/sh"

name_room : 0 < length (path_bytes program)
unfolding as_bytes encode_char
name_room = omega arith

scalars : All IsScalar program
scalars = ground arith

takeover_with-IsPrepared_example :
    (name : ℕ) × (empty : ℕ) × (t : Toy) × (takeover_with toy_host program true vdso_session
      ≡ let_go toy_host true (record { controller = controller; os = t }))
    × IsPrepared toy_host controller
        (toy_machine tracee_pid)
        toy_calls
        toy_new
        fuelled
        8196
        vdso
        program
        name
        empty
        t
    × ((b : ℕ) → b < waited.os.mapped_end → bytes_of t b ≡ bytes_of waited.os b)
takeover_with-IsPrepared_example =
    takeover_with-IsPrepared toy_host controller (toy_machine tracee_pid) toy_calls toy_new fuelled
      8196 vdso program true vdso_session attached waited (waited.os) started.0 started.1 started.2
      is_ready scalars name_room (omega arith)
