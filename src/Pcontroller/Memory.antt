-- ===== src/Pcontroller/Memory.antt =====
-- What a method leaves of the tracee's memory.
use process_magic.Prelude.{ℕ, ◌≡◌, Result, ok}
use process_magic.Host.{Host}
use process_magic.Host.Memory.{TraceeMemory}
use process_magic.Pcontroller.{ProcessController, Session}

module _ (H : Host) (c : ProcessController) (M : TraceeMemory H c.pid) where
  open M use {byte_at, Accessible}

  abbrev at : H.State → Session H.State
  at s = record { controller = c; os = s }

  -- The code ends well in a state whose memory is given by `bytes`, and where no word has become
  -- inaccessible; the controller is as it was.
  abbrev pub Leaves : H.State → (ℕ → ℕ) → Result (Unit {0}) × Session H.State → Type 0
  Leaves s bytes outcome = record {
    next : H.State;
    ends : outcome ≡ (ok tt, at next);
    bytes_eq : (b : ℕ) → byte_at next b ≡ bytes b;
    accessible : (b : ℕ) → Accessible s b → Accessible next b;
  }
