-- ===== src/Pcontroller/Keeping.antt =====
-- proctool/pcontroller.rs: the methods leave the controller with its pid and its flag.
pub mod Methods
pub mod Calls
use process_magic.Prelude.{◌≡◌, true}
use process_magic.Int.{ℤ}
use process_magic.Host.{Host}
use process_magic.Host.Action.{Action}
use process_magic.Host.Keeping.{Keeps, keeps_rules}
use process_magic.Pcontroller.{Session, os}

-- The controller is that of `pid`, and is to detach from it when it is dropped.
abbrev pub IsOwner : {S : Type 0} → ℤ → Session S → Type 0
IsOwner pid s = (s.controller.pid ≡ pid) × (s.controller.detach_on_drop ≡ true)

pub Keeps-os :
    (H : Host) {pid : ℤ} {A : Type 0} (m : Action H.State A) → Keeps (IsOwner pid) (os H m)
Keeps-os H m = record { at = λ s h. h }

pub ruleset owner_rules = (keeps_rules, Keeps-os)
