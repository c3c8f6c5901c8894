-- ===== src/Spawn/Telefork.antt =====
-- teleclient/bin/main.rs with teleserver/bin/main.rs: a telefork from the client to the end of the
-- server's request, on one machine, as the client's fixed address has it.
use process_magic.Prelude.{
  ◌≡◌, arith, Bool, [], ◌∷◌, num, message, true, false, Error, IsReturned, Result, ok, err, panic,
  unfinished,
}
use process_magic.Int.{ℤ}
use process_magic.Host.{Host}
use process_magic.Host.Action.{Action}
use process_magic.Tracer.{
  TeleforkApiRequest, seize_and_interrupt, read_process, drop_tracer, telefork_client,
}
use process_magic.Spawn.{spawn_process}
use process_magic.Spawn.Route.{
  Status, ok_status, internal_server_error, TeleforkApiResponse, telefork_route,
}

module _ (H : Host) where
  -- What HTTP and JSON give the client: the response of the route, if the route returns.
  abbrev pub Delivers : (TeleforkApiRequest → Action H.State Bool) → Type 0
  Delivers send =
      (request : TeleforkApiRequest) (s t : H.State) (status : Status)
      (response : TeleforkApiResponse)
      → telefork_route H request s ≡ (ok (status, response), t)
      → send request s ≡ (ok response.success, t)

  -- The end of the client by that of the spawn: the tracer is dropped, or the client exits with 1.
  abbrev pub ended : ℤ → Result (Unit {0}) → H.State → Result (Unit {0}) × H.State
  ended pid (err e) v = (err (message "exit status {}" (num 1 ∷ [])), v)
  ended pid _ v = (ok tt, (drop_tracer H pid v).1)

  -- the response by the end of the spawn
  abbrev spawned_with : TeleforkApiRequest → Action H.State (Unit {0})
  spawned_with request =
      spawn_process H request.gp_register_data request.fp_register_data request.memory_maps

  route-ok :
      (request : TeleforkApiRequest) (u v : H.State)
      → spawned_with request u ≡ (ok tt, v)
      → telefork_route H request u ≡ (ok (ok_status, record { success = true }), v)
  unfolding telefork_route
  route-ok request u v e = ground (arith, e)

  route-err :
      (request : TeleforkApiRequest) (u v : H.State) (e : Error)
      → spawned_with request u ≡ (err e, v)
      → telefork_route H request u ≡ (ok (internal_server_error, record { success = false }), v)
  unfolding telefork_route
  route-err request u v e h = ground (arith, h)

  -- If HTTP and JSON give the client the response of the route, and the client has seized the
  -- process and read it, then the process is spawned from what was read, in the state behind the
  -- reading, and by the result of the spawn the client ends well and has detached from the
  -- process, or exits with status 1.
  pub telefork_client-spawn_process :
      (send : TeleforkApiRequest → Action H.State Bool) (pid : ℤ) (s t u v : H.State)
      (request : TeleforkApiRequest) (r : Result (Unit {0}))
      → Delivers send
      → seize_and_interrupt H pid s ≡ (ok pid, t)
      → read_process H pid t ≡ (ok request, u)
      → spawn_process H request.gp_register_data request.fp_register_data request.memory_maps u
        ≡ (r, v)
      → IsReturned r
      → telefork_client H send pid s ≡ ended pid r v
  unfolding telefork_client
  telefork_client-spawn_process send pid s t u v request (ok a) delivers seized read spawned h =
      ground (arith, seized, read, delivers request u v _ _ (route-ok request u v spawned))
  telefork_client-spawn_process send pid s t u v request (err e) delivers seized read spawned h =
      ground (arith, seized, read, delivers request u v _ _ (route-err request u v e spawned))
  telefork_client-spawn_process send pid s t u v request panic delivers seized read spawned h =
      absurd h
  telefork_client-spawn_process send pid s t u v request unfinished delivers seized read spawned h =
      absurd h
