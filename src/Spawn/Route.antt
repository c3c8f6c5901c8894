-- ===== src/Spawn/Route.antt =====
-- teleserver/bin/main.rs: the route of the server. The transport of requests and responses by rocket
-- and serde is left out.
use process_magic.Prelude.{Bool, true, false, ok, err, panic, unfinished}
use process_magic.Host.{Host}
use process_magic.Host.Action.{Action}
use process_magic.Tracer.{TeleforkApiRequest}
use process_magic.Spawn.{spawn_process}

-- `rocket::http::Status`
pub data Status : Type 0 where
  ok_status internal_server_error : Status

-- `TeleforkApiResponse`
pub record TeleforkApiResponse : Type 0 where
  pub success : Bool

module _ (H : Host) where
  unfoldable pub telefork_route : TeleforkApiRequest → Action H.State (Status × TeleforkApiResponse)
  telefork_route request s =
      let (r, t) =
        spawn_process H request.gp_register_data request.fp_register_data request.memory_maps s in
      elim r [
        | ok a ↦ (ok (ok_status, record { success = true }), t)
        | err e ↦ (ok (internal_server_error, record { success = false }), t)
        | panic ↦ (panic, t)
        | unfinished ↦ (unfinished, t)
      ]
