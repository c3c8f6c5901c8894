-- ===== src/Spawn/Restore.antt =====
-- teleserver/spawn.rs: `make_syscall` puts back what it has changed.
use process_magic.Prelude.{
  ℕ, ◌+◌, ◌≤◌, ◌≡◌, ◌∙◌, List, arith, ok, length, ◌&&◌, ltb, leb, if◌then◌else◌,
}
use process_magic.Int.{ℤ}
use process_magic.Host.{Host, Registers, Sysno}
use process_magic.Host.Memory.{word_at}
use process_magic.Host.Memory.Words.{word_at-lt, poked-word_at}
use process_magic.Host.Machine.{TraceeMachine}
use process_magic.Pcontroller.Syscalls.Execute.{syscall_registers, load_args_syscall}
use process_magic.Spawn.{make_syscall, svc_word}

module _ (H : Host) (pid : ℤ) (M : TraceeMachine H pid) where
  open M use {
    tracee, memory, registers-poke, poke-IsStopped, byte_at-setregset, setregset-Accessible,
  }
  open tracee use {
    IsStopped, registers, getregset, after_setregset, setregset, registers-setregset,
    setregset-IsStopped, after_step, step, stops, step-IsStopped,
  }
  open memory use {
    byte_at, byte_at-lt, Accessible, peek, after_poke, poke, byte_at-poke, poke-Accessible,
  }

  -- the tracee about to run the call
  abbrev pub injected : Sysno → List ℕ → H.State → H.State
  injected sysno args s =
      let r : Registers = registers s in
      after_setregset (after_poke s r.pc svc_word) (syscall_registers H sysno args r.pc r)

  -- the tracee when all is put back
  abbrev pub restored : Sysno → List ℕ → H.State → H.State
  restored sysno args s =
      let r : Registers = registers s in
      let t : H.State = after_step (injected sysno args s) in
      after_setregset (after_poke t r.pc (word_at (byte_at s) r.pc)) r

  injected-IsStopped :
      (sysno : Sysno) (args : List ℕ) (s : H.State)
      → IsStopped s
      → IsStopped (injected sysno args s)
  injected-IsStopped sysno args s h =
      setregset-IsStopped (after_poke s (registers s).pc svc_word) _
        (poke-IsStopped s (registers s).pc svc_word h)

  make_syscall_ends :
      (sysno : Sysno) (args : List ℕ) (s : H.State)
      → IsStopped s
      → length args ≤ 8
      → Accessible s (registers s).pc
      → Accessible (after_step (injected sysno args s)) (registers s).pc
      → make_syscall H pid sysno args s
        ≡ (ok ((registers (after_step (injected sysno args s))).regs 0), restored sysno args s)
  unfolding make_syscall
  make_syscall_ends sysno args s h few here there =
      let r : Registers = registers s in
      let s1 : H.State = after_poke s r.pc svc_word in
      let h1 : IsStopped s1 = poke-IsStopped s r.pc svc_word h in
      let s2 : H.State = injected sysno args s in
      let h2 : IsStopped s2 = injected-IsStopped sysno args s h in
      let s3 : H.State = after_step s2 in
      let h3 : IsStopped s3 = step-IsStopped s2 h2 in
      let w : ℕ = word_at (byte_at s) r.pc in
      let s4 : H.State = after_poke s3 r.pc w in
      let h4 : IsStopped s4 = poke-IsStopped s3 r.pc w h3 in
      ground (
        arith,
        getregset s h,
        load_args_syscall H sysno args r.pc r few,
        peek s r.pc here,
        poke s r.pc svc_word here,
        setregset s1 (syscall_registers H sysno args r.pc r) h1,
        step s2 h2,
        stops s2 h2,
        poke s3 r.pc w there,
        getregset s4 h4,
        registers-poke s3 r.pc w h3,
        setregset s4 r h4,
      )

  -- For a stopped tracee, at most eight arguments and an accessible word at the program counter
  -- before and behind the step, make_syscall ends well with x0 behind one step as its result; the
  -- tracee has all its registers back and the eight bytes at the program counter, and every other
  -- byte is as the step left it.
  pub make_syscall_restores :
      (sysno : Sysno) (args : List ℕ) (s : H.State)
      → IsStopped s
      → length args ≤ 8
      → Accessible s (registers s).pc
      → Accessible (after_step (injected sysno args s)) (registers s).pc
      → let t = after_step (injected sysno args s) in
        let next = restored sysno args s in
        (make_syscall H pid sysno args s ≡ (ok ((registers t).regs 0), next))
        × (registers next ≡ registers s)
        × ((b : ℕ)
            → byte_at next b ≡ (
                if leb (registers s).pc b && ltb b ((registers s).pc + 8)
                then byte_at s b
                else byte_at t b))
  make_syscall_restores sysno args s h few here there =
      let r : Registers = registers s in
      let t : H.State = after_step (injected sysno args s) in
      let ht : IsStopped t =
        step-IsStopped (injected sysno args s) (injected-IsStopped sysno args s h) in
      let w : ℕ = word_at (byte_at s) r.pc in
      let u : H.State = after_poke t r.pc w in
      let hu : IsStopped u = poke-IsStopped t r.pc w ht in
      (
        make_syscall_ends sysno args s h few here there,
        registers-setregset u r hu,
        λ b.
            byte_at-setregset u r b hu
            ∙ byte_at-poke t r.pc w b there (word_at-lt (byte_at s) (byte_at-lt s) r.pc)
            ∙ poked-word_at (byte_at s) (byte_at-lt s) r.pc (byte_at t) b,
      )
