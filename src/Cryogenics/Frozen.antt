-- ===== src/Cryogenics/Frozen.antt =====
-- proctool/cryogenics.rs: the registers of a frozen process.
use process_magic.Prelude.{◌≡◌, refl, ◌∙◌, ap, sym, arith, List, ok}
use process_magic.Int.{ℤ}
use process_magic.Host.{Host, Registers}
use process_magic.Host.Action.{Holds, Holds-any, Holds-ok, pure, ◌>>=◌, ◌>>◌}
use process_magic.Host.Tracee.{Tracee}
use process_magic.Myprocfs.{MemoryMap}
use process_magic.Myprocfs.Files.{read_memory_maps, populate_memory}
use process_magic.Pcontroller.{ProcessController, Session, Method, attach, detach_and_stop, os}
use process_magic.Pcontroller.Waiting.{get_registers-at}
use process_magic.Cryogenics.{ProcessState, freeze_with, saved_registers}

abbrev state_with : Registers → List MemoryMap → ProcessState
state_with registers populated = record {
  memory_maps = populated;
  regs = registers.regs;
  sp = registers.sp;
  pc = registers.pc;
  pstate = registers.pstate;
}

-- What `freeze_with` does when it has the registers, from the maps on, and from its beginning on.
abbrev populated_state : (H : Host) → ℤ → Registers → List MemoryMap → Method H ProcessState
populated_state H pid registers memory_maps =
    os H (populate_memory H pid memory_maps) >>= λ populated. pure (state_with registers populated)

abbrev detached_state : (H : Host) → ℤ → Registers → Method H ProcessState
detached_state H pid registers =
    detach_and_stop H >> (os H (read_memory_maps H pid) >>= populated_state H pid registers)

module _ (H : Host) (c : ProcessController) (T : Tracee H c.pid) where
  open T use {IsStopped, registers}

  abbrev at : H.State → Session H.State
  at s = record { controller = c; os = s }

  freeze_with_attached :
      (s t : H.State)
      → attach H (at s) ≡ (ok tt, at t)
      → IsStopped t
      → freeze_with H c.pid (at s) ≡ detached_state H c.pid (registers t) (at t)
  unfolding freeze_with
  freeze_with_attached s t e h = ground (arith, e, get_registers-at H c T t h)

  detached_state-registers :
      (pid : ℤ) (r : Registers) (s : Session H.State)
      → Holds (λ state. saved_registers H state ≡ r) (detached_state H pid r s).0
  unfolding saved_registers
  detached_state-registers pid r s =
      Holds-any (Has r) (detach_and_stop H)
        (λ _. os H (read_memory_maps H pid) >>= populated_state H pid r) s
        (λ _ t.
          Holds-any (Has r) (os H (read_memory_maps H pid)) (populated_state H pid r) t (λ maps u.
            Holds-any (Has r) (os H (populate_memory H pid maps))
              (λ populated. pure (state_with r populated)) u (λ populated v. refl)))
    where
      Has : Registers → ProcessState → Type 0
      Has registers state = saved_registers H state ≡ registers

  -- If attaching leaves a stopped tracee and freezing returns a state, the registers that thaw
  -- takes from that state are the tracee's registers at the attach.
  pub freeze_with-registers :
      (s t : H.State) (state : ProcessState) (u : Session H.State)
      → attach H (at s) ≡ (ok tt, at t)
      → IsStopped t
      → freeze_with H c.pid (at s) ≡ (ok state, u)
      → saved_registers H state ≡ registers t
  freeze_with-registers s t state u e h f =
      Holds-ok (λ st. saved_registers H st ≡ registers t) _ state
        (detached_state-registers c.pid (registers t) (at t))
        (ap (λ o. o.0) (sym (freeze_with_attached s t e h) ∙ f))
