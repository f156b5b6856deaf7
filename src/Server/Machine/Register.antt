-- ===== src/Server/Machine/Register.antt =====
-- src/server/server.c: a registration, with the worker threads that it starts.
use tinyfile.Common.{ℕ, ◌<◌, ◌≡◌, ◌≢◌, refl, none, some, List, arith, length}
use tinyfile.Common.Run.{Run}
use tinyfile.Common.Returns
use tinyfile.Common.Returns.{Returns, returns}
use tinyfile.Common.Memory.{Ptr, null}
use tinyfile.Types.{RegistryEntry}
use tinyfile.Server.{Server}
use tinyfile.Server.Clients.{Cell, IsClients}
use tinyfile.Server.Clients.Append.{new_cell, appended}
use tinyfile.Server.Registry.{init_worker_threads, new_client}
use tinyfile.Server.Registry.Lookup.{node_with, find_client-node_with}
use tinyfile.Server.Registry.Register.{register_client-new}
use tinyfile.Server.Threads.Restart.{ready, init_pool-ready}
use tinyfile.Server.Process.{put_server}
use tinyfile.Server.Machine.{Machine, put_process, registration}

-- A command on the server that returns, in the whole: only the server changes.
list-Returns :
    {A : Type 0} {P : A → Server → Type 0} (s : Machine) {r : Run Server A}
    → Returns P r
    → Returns
        (λ a t.
          (u : Server) × (t ≡ record s { process = record (s.process) { server = u } }) × P a u)
        (put_process s (put_server s.process r))
list-Returns s (returns p) = returns (_, refl, p)

-- A client that is not registered, whose queues and memory open and whose node is at an unused address:
-- `register_client` returns 0, the client is at the end of the list with its counters at 0, ten worker
-- threads of it run that are not told to stop, and the threads of the other clients are left alone.
pub register_client-ready :
    (e : RegistryEntry) (s : Machine) (cs : List Cell) (send_q recv_q size addr : ℕ)
    → IsClients s.process.server cs
    → length cs < s.answers.walk
    → node_with e.pid cs ≡ null
    → s.answers.send_q ≡ some send_q
    → s.answers.recv_q ≡ some recv_q
    → s.answers.shm ≡ some (size, addr)
    → s.answers.fresh ≢ null
    → s.process.server.heap s.answers.fresh ≡ none
    → Returns
        (λ code t.
          (code ≡ some 0)
          × IsClients t.process.server (
              appended cs (
                new_cell s.answers.fresh
                  (init_worker_threads (new_client s.answers e send_q recv_q size addr))))
          × (t.pools s.answers.fresh ≡ ready)
          × ((p : Ptr) → p ≢ s.answers.fresh → t.pools p ≡ s.pools p))
        (registration.register_client e s)
unfolding registration
register_client-ready e s cs send_q recv_q size addr is fuel absent sq rq shm nz unused =
    rw (find_client-node_with s.answers.walk e.pid s.process.server cs is fuel) (
      Returns.chain
        (list-Returns s (
          register_client-new s.answers e s.process.server cs send_q recv_q size addr is fuel absent
            sq rq shm nz unused))
        λ code t (u, same, (zero_code, listed, _, _)).
          rw (zero_code, absent, init_pool-ready (t.pools s.answers.fresh), same)
            (returns (refl, listed, ground arith, λ p other. ground arith)))
