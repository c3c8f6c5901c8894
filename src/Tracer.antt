-- ===== src/Tracer.antt =====
-- teleclient/ptrace.rs, common/httpapi.rs and teleclient/bin/main.rs: the client's side of a telefork.
-- The HTTP request is a parameter, `send`, which returns whether the server had success.
use process_magic.Prelude.{
  ℕ, Bool, true, false, List, [], ◌∷◌, none, some, num, Result, ok, err, panic, unfinished,
}
use process_magic.Int.{ℤ}
use process_magic.Host.{
  Host, RegisterSet, nt_prstatus, nt_prfpreg, ptrace_seize, ptrace_interrupt, waitpid, wstopped,
  ptrace_getregset_raw, ptrace_detach,
}
use process_magic.Host.Action.{Action, pure, fail, labelled, ignore_err, ◌>>=◌, ◌>>◌}
use process_magic.Myprocfs.{MemoryMap}
use process_magic.Myprocfs.Files.{read_memory_maps, populate_memory}

-- `TeleforkApiRequest`
pub record TeleforkApiRequest : Type 0 where
  pub gp_register_data : List ℕ
  pub fp_register_data : List ℕ
  pub memory_maps : List MemoryMap

-- A `Tracer` is its pid.
module _ (H : Host) where
  unfoldable pub seize_and_interrupt : ℤ → Action H.State ℤ
  seize_and_interrupt pid = do
    labelled "failed to seize process" (H.perform (ptrace_seize pid))
    labelled "failed to interrupt process" (H.perform (ptrace_interrupt pid))
    labelled "failed to waitpid" (H.perform (waitpid pid (some wstopped)))
    pure pid

  unfoldable pub get_register_data : ℤ → RegisterSet → Action H.State (List ℕ)
  get_register_data pid kind =
      labelled "PTRACE_GETREGSET failed" (H.perform (ptrace_getregset_raw pid kind))

  unfoldable pub read_memory : ℤ → Action H.State (List MemoryMap)
  read_memory pid = do memory_maps ← read_memory_maps H pid; populate_memory H pid memory_maps

  -- What `main` reads of the process
  unfoldable pub read_process : ℤ → Action H.State TeleforkApiRequest
  unfolding get_register_data read_memory
  read_process pid = do
    gp_register_data ← get_register_data pid nt_prstatus
    fp_register_data ← get_register_data pid nt_prfpreg
    memory_maps ← read_memory pid
    pure (record {
      gp_register_data = gp_register_data;
      fp_register_data = fp_register_data;
      memory_maps = memory_maps;
    })

  -- `Drop for Tracer`
  unfoldable pub drop_tracer : ℤ → Action H.State (Unit {0})
  drop_tracer pid = ignore_err (H.perform (ptrace_detach pid none))

  -- `main`, behind the reading of the arguments. The tracer is dropped however the body ends, but
  -- not when the server had no success: `std::process::exit(1)` runs no destructor.
  unfoldable pub telefork_client :
      (TeleforkApiRequest → Action H.State Bool) → ℤ → Action H.State (Unit {0})
  unfolding drop_tracer
  telefork_client send pid = do
    tracer ← seize_and_interrupt pid
    λ s. ended tracer ((read_process tracer >>= send) s)
    where
      ended : ℤ → Result Bool × H.State → Result (Unit {0}) × H.State
      ended tracer (ok true, t) = (ok tt, (drop_tracer tracer t).1)
      ended tracer (ok false, t) = fail "exit status {}" (num 1 ∷ []) t
      ended tracer (err e, t) = (err e, (drop_tracer tracer t).1)
      ended tracer (panic, t) = (panic, (drop_tracer tracer t).1)
      ended tracer (unfinished, t) = (unfinished, t)
