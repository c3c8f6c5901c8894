-- ===== src/Host/Log.antt =====
-- A machine that notes the calls made on it, the newest first, each with whether it had success.
use process_magic.Prelude.{Bool, true, false, List, ◌∷◌, Result, ok}
use process_magic.Host.{Host, Call}

abbrev pub Log : Type 0
Log = List (Call × Bool)

abbrev pub is_ok : {A : Type 0} → Result A → Bool
is_ok (ok a) = true
is_ok _ = false

abbrev pub logged : Host → Host
logged H = record {
  State = H.State × Log;
  perform = λ c s. let (r, t) = H.perform c s.0 in (r, (t, (c, is_ok r) ∷ s.1));
  sysno = H.sysno;
  profile = H.profile;
  fuel = H.fuel;
}
