-- ===== src/Server/Machine/Thread.antt =====
-- src/server/server.c: the registry's thread on the whole state of the server, from the functions that
-- it calls to its loop.
use tinyfile.Common.{
  ℕ, ◌<◌, ◌≡◌, ◌≢◌, refl, false, Option, none, some, List, [], ◌∷◌, length, if◌then◌else◌,
}
use tinyfile.Common.Run.{Cmd, pure, ◌>>=◌, ◌>>◌, gets, modify}
use tinyfile.Common.Returns
use tinyfile.Common.Returns.{Returns, returns}
use tinyfile.Common.Memory.{Ptr, null}
use tinyfile.Types.{
  RegistryEntry, RegistryCmd, client_register, client_unregister, client_close, server_close,
}
use tinyfile.Server.Clients.{Cell, IsClients}
use tinyfile.Server.Clients.Append.{new_cell, appended}
use tinyfile.Server.Registry.{
  Answers, Event, timeout, message, Outcome, running, stopped, exited, init_worker_threads,
  new_client,
}
use tinyfile.Server.Registry.Lookup.{node_with}
use tinyfile.Server.Threads.Restart.{ready}
use tinyfile.Server.Interface.{Registration}
use tinyfile.Server.Machine.{Machine, registration}
use tinyfile.Server.Machine.Register.{register_client-ready}

-- The functions of the registry: those that a message asks for, and the thread's loop over its rounds.
pub record Registry (S : Type 0) : Type 0 where
  pub calls : Registration S
  pub registry_handler : List Event → Cmd S Outcome

dispatch : RegistryCmd → RegistryEntry → Cmd Machine (Option ℕ)
dispatch client_register e = registration.register_client e
dispatch client_unregister e = registration.unregister_client e.pid false >> pure (some 0)
dispatch client_close e = registration.unregister_client e.pid false >> pure (some 0)
dispatch server_close e = pure (some 0)

-- A message comes with what the system will answer to the calls that it asks for.
pub registry_handler : List Event → Cmd Machine Outcome
registry_handler [] = pure running
registry_handler (ev ∷ rest) = do
  stop ← gets (λ s. s.process.server.stop_registry)
  if stop then pure stopped else elim ev [
    | timeout ↦ registry_handler rest
    | message e w ↦ (do
      modify (λ s. record s { answers = w })
      done ← dispatch e.cmd e
      elim done [ none ↦ pure exited | some _ ↦ registry_handler rest ])
  ]

abbrev pub registry : Registry Machine
registry = record { calls = registration; registry_handler = registry_handler }

-- A registration that arrives while the registry's thread is not told to stop, of a client that is not
-- registered, whose queues and memory open and whose node is at an unused address: the thread goes on, the
-- client is at the end of the list, ten worker threads of it run, and those of the other clients are left
-- alone.
pub registry_handler-ready :
    (w : Answers) (e : RegistryEntry) (s : Machine) (cs : List Cell) (send_q recv_q size addr : ℕ)
    → s.process.server.stop_registry ≡ false
    → e.cmd ≡ client_register
    → IsClients s.process.server cs
    → length cs < w.walk
    → node_with e.pid cs ≡ null
    → w.send_q ≡ some send_q
    → w.recv_q ≡ some recv_q
    → w.shm ≡ some (size, addr)
    → w.fresh ≢ null
    → s.process.server.heap w.fresh ≡ none
    → Returns
        (λ outcome t.
          (outcome ≡ running)
          × IsClients t.process.server (
              appended cs
                (new_cell w.fresh (init_worker_threads (new_client w e send_q recv_q size addr))))
          × (t.pools w.fresh ≡ ready)
          × ((p : Ptr) → p ≢ w.fresh → t.pools p ≡ s.pools p))
        (registry.registry_handler (message e w ∷ []) s)
unfolding registry_handler dispatch
registry_handler-ready w e s cs send_q recv_q size addr runs asked is fuel absent sq rq shm nz
      unused =
    simp (runs, asked)
      (Returns.chain
        (register_client-ready e (record s { answers = w }) cs send_q recv_q size addr is fuel
          absent sq rq shm nz unused)
        λ code t (zero_code, listed, workers, others).
          rw zero_code (returns (refl, listed, workers, others)))
