-- ===== src/Cryogenics.antt =====
-- proctool/cryogenics.rs: freezing a process into a state, and thawing it in a child.
pub mod Frozen
pub mod Thawed
pub mod Carried
use process_magic.Prelude.{
  ℕ, String, List, [], ◌∷◌, Option, none, some, Result, ok, err, panic, unfinished, Error,
}
use process_magic.Int.{ℤ}
use process_magic.Text.{codes}
use process_magic.Terminals.{clear_terminal}
use process_magic.Host.{
  Host, Registers, ForkResult, parent, child, fork, waitpid, wstopped, ptrace_traceme, raise,
  sigstop,
}
use process_magic.Host.Action.{Action, pure, labelled, ignore_err, ◌>>=◌, ◌>>◌}
use process_magic.Myprocfs.{MemoryMap}
use process_magic.Myprocfs.Files.{read_memory_maps, populate_memory}
use process_magic.Pcontroller.{
  Method, os, new, attach, get_registers, set_registers, detach, detach_and_stop, wait_pid,
  with_controller,
}
use process_magic.Pcontroller.Regions.{map_svc_region, map_and_fill_region}

pub record ProcessState : Type 0 where
  pub memory_maps : List MemoryMap
  pub regs : ℕ → ℕ
  pub sp : ℕ
  pub pc : ℕ
  pub pstate : ℕ

module _ (H : Host) where
  -- The body of `freeze`, in which the controller lives.
  unfoldable pub freeze_with : ℤ → Method H ProcessState
  freeze_with pid = do
    attach H
    registers ← get_registers H
    detach_and_stop H
    memory_maps ← os H (read_memory_maps H pid)
    populated ← os H (populate_memory H pid memory_maps)
    pure (record {
      memory_maps = populated;
      regs = registers.regs;
      sp = registers.sp;
      pc = registers.pc;
      pstate = registers.pstate;
    })

  unfoldable pub freeze : ℤ → Action H.State ProcessState
  unfolding freeze_with
  freeze pid = with_controller H (new pid) (freeze_with pid)

  -- The loop over the maps: a map that cannot be restored is reported and passed over.
  unfoldable pub restore_maps : ℕ → List MemoryMap → Method H (Unit {0})
  restore_maps svc_region_addr [] = pure tt
  restore_maps svc_region_addr (map ∷ maps) = do
    ignore_err (map_and_fill_region H svc_region_addr map)
    restore_maps svc_region_addr maps

  unfoldable pub saved_registers : ProcessState → Registers
  saved_registers state = record {
    regs = state.regs;
    sp = state.sp;
    pc = state.pc;
    pstate = state.pstate;
  }

  -- What the parent does with the controller of the child.
  unfoldable pub thaw_with : ProcessState → Method H (Unit {0})
  unfolding restore_maps saved_registers
  thaw_with state = do
    svc_region_addr ← labelled "failed to map svc region" (map_svc_region H)
    restore_maps svc_region_addr state.memory_maps
    set_registers H (saved_registers state)
    os H (clear_terminal H (codes "/dev/tty"))
    detach H
    wait_pid H

  unfoldable pub thaw : ProcessState → Action H.State (Unit {0})
  unfolding thaw_with
  thaw state = do
    forked ← H.perform fork
    elim forked [
      | parent child_pid ↦ do
        labelled "failed to waitpid" (H.perform (waitpid child_pid (some wstopped)))
        with_controller H (new child_pid) (thaw_with state)
      | child ↦ H.perform ptrace_traceme >> H.perform (raise sigstop)
    ]
