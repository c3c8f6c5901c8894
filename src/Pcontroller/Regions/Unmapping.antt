-- ===== src/Pcontroller/Regions/Unmapping.antt =====
-- proctool/pcontroller.rs: what `unmap_existing_regions` makes the tracee unmap.
use process_magic.Prelude.{ℕ, ◌+◌, ◌^◌, ◌≤◌, ◌<◌, ◌≡◌, arith, false, [], ◌∷◌, ok}
use process_magic.Text.{codes}
use process_magic.Words.{add_u64_fits}
use process_magic.Host.{Host, munmap_no}
use process_magic.Host.Action.{ignore_err, ◌>>◌}
use process_magic.Host.Mapping.{apart}
use process_magic.Pcontroller.{Session, Method}
use process_magic.Pcontroller.Syscalls.{get_segment_address, execute_syscall_at_pc}
use process_magic.Pcontroller.Regions.{unmap_existing_regions}

module _ (H : Host) where
  -- munmap of a region, tried at the instruction `svc`
  unfoldable pub try_munmap : ℕ → ℕ → ℕ → Method H (Unit {0})
  try_munmap svc a n = ignore_err (execute_syscall_at_pc H munmap_no (a ∷ n ∷ []) svc)

  -- If the maps have [vvar] and [vdso], and the svc instruction stands above [vdso],
  -- unmap_existing_regions tries the two calls one after the other, each whatever the other does:
  -- the first from the end of [vdso] on, for as many bytes as is the address of the instruction,
  -- a region that the instruction is part of, and the second from 0 up to [vvar].
  pub unmap_existing_regions-not_apart :
      (svc : ℕ) (vvar vdso : ℕ × ℕ) (s t u : Session H.State)
      → get_segment_address H (codes "[vvar]") s ≡ (ok vvar, t)
      → get_segment_address H (codes "[vdso]") t ≡ (ok vdso, u)
      → 4 ≤ vdso.0
      → vdso.0 + vdso.1 ≤ svc
      → svc < 2 ^ 64
      → (unmap_existing_regions H svc s
          ≡ (try_munmap svc (vdso.0 + vdso.1) svc >> try_munmap svc 0 vvar.0) u)
        × (apart (vdso.0 + vdso.1) svc svc 4 ≡ false)
  unfolding unmap_existing_regions try_munmap
  unmap_existing_regions-not_apart svc vvar vdso s t u e f low above fits =
      (ground (arith, e, f, add_u64_fits H.profile vdso.0 vdso.1 (omega arith)), ground arith)
