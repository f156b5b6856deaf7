-- ===== src/Server/Registry.antt =====
-- src/server/server.c: registration of clients, the registry's thread, and the server's exit.
-- What `mq_open`, `shm_open`, `fstat`, `mmap` and `malloc` answer comes with each call.
pub mod Codes
pub mod Exit
pub mod Lookup
pub mod Register
pub mod Unregister
use tinyfile.Common.{
  ℕ, zero, suc, Bool, true, false, Option, none, some, List, [], ◌∷◌, ◌==◌, not, if◌then◌else◌,
}
use tinyfile.Common.Run.{ok, fault, out_of_fuel, Cmd, pure, ◌>>=◌, ◌>>◌, gets, modify}
use tinyfile.Common.Memory.{Ptr, null}
use tinyfile.Types.{
  RegistryEntry, RegistryCmd, client_register, client_unregister, client_close, server_close,
}
use tinyfile.Server.{
  Client, Node, Server, load, store, update, free, append_client, remove_client, find_client,
}

-- What other threads do between two steps.
abbrev pub Others : Type 0
Others = Server → Server

-- What the world gives to one call: the two queues; the size and the address of the shared memory,
-- `none` if `shm_open` fails; the node that `malloc` returns and what it holds; the rounds of the walk
-- through the list, and of the wait for the client's requests.
pub record Answers : Type 0 where
  pub send_q : Option ℕ
  pub recv_q : Option ℕ
  pub shm : Option (ℕ × ℕ)
  pub fresh : Ptr
  pub unset : Node
  pub walk : ℕ
  pub waiting : List Others

-- `init_worker_threads`, and in it `start_worker_threads`, as far as they write to the client.
abbrev pub init_worker_threads : Client → Client
init_worker_threads c = record c {
  stop_client_threads = false;
  num_requests_started = 0;
  num_requests_completed = 0;
}

-- The client that `register_client` fills in, with what `open_shm` puts into it.
abbrev pub new_client : Answers → RegistryEntry → (send_q recv_q size addr : ℕ) → Client
new_client w e send_q recv_q size addr = record (w.unset.client) {
  pid = e.pid;
  send_q = send_q;
  recv_q = recv_q;
  shm_addr = addr;
  shm_size = size;
  shm_name = e.shm_name;
}

-- `open_shm`: what `shm_open`, `fstat` and `mmap` give goes into the client; `none` is
-- `exit(EXIT_FAILURE)`.
abbrev pub open_shm : Option (ℕ × ℕ) → RegistryEntry → Client → Option Client
open_shm none e c = none
open_shm (some (size, addr)) e c =
    some (record c { shm_name = e.shm_name; shm_size = size; shm_addr = addr })

add_client : Ptr → Node → Cmd Server (Option ℕ)
add_client fresh n = if fresh == null then (λ _. fault) else do
  store fresh (some n)
  append_client fresh
  update fresh (λ m. record m { client = init_worker_threads m.client })
  pure (some 0)

-- `none` is `exit(EXIT_FAILURE)`, on which the process ends.
pub register_client : Answers → RegistryEntry → Cmd Server (Option ℕ)
register_client w e = do
  found ← find_client w.walk e.pid
  if not (found == null) then pure (some 0) else elim w.send_q [
    | none ↦ pure none
    | some send_q ↦ elim w.recv_q [
      | none ↦ pure none
      | some recv_q ↦
          elim (open_shm w.shm e
            (record (w.unset.client) { pid = e.pid; send_q = send_q; recv_q = recv_q })) [
              | none ↦ pure none
              | some client ↦ add_client w.fresh (record (w.unset) { client = client })
            ]
    ]
  ]

-- The wait until every request that was started is completed.
pub wait_requests : List Others → Ptr → Cmd Server (Unit {0})
wait_requests [] node = λ _. out_of_fuel
wait_requests (o ∷ rest) node = do
  modify o
  n ← load node
  if n.client.num_requests_started == n.client.num_requests_completed
      then pure tt
      else wait_requests rest node

-- The message to a client that its server is closing; if it cannot be sent that is only reported.
pub send_pill : Ptr → Cmd Server (Unit {0})
send_pill node = do n ← load node; modify (λ s. record s { pills = n.client.send_q ∷ s.pills })

pub unregister_client : Answers → (pid : ℕ) → (close : Bool) → Cmd Server ℕ
unregister_client w pid close = do
  node ← find_client w.walk pid
  if node == null then pure 0 else do
    if close then send_pill node else pure tt
    remove_client node
    wait_requests w.waiting node
    free node
    pure 0

-- A round of `registry_handler`: no message in time, or one.
pub data Event : Type 0 where
  timeout : Event
  message : RegistryEntry → Answers → Event

pub data Outcome : Type 0 where
  running stopped exited : Outcome

-- An unknown command is only reported.
pub dispatch : RegistryCmd → RegistryEntry → Answers → Cmd Server (Option ℕ)
dispatch client_register e w = register_client w e
dispatch client_unregister e w = unregister_client w e.pid false >> pure (some 0)
dispatch client_close e w = unregister_client w e.pid false >> pure (some 0)
dispatch server_close e w = pure (some 0)

-- `registry_handler` over the rounds given; behind them it goes on running.
pub registry_handler : List Event → Cmd Server Outcome
registry_handler [] = pure running
registry_handler (ev ∷ rest) = do
  stop ← gets (λ s. s.stop_registry)
  if stop then pure stopped else elim ev [
    | timeout ↦ registry_handler rest
    | message e w ↦ (do
      done ← dispatch e.cmd e w
      elim done [ none ↦ pure exited | some _ ↦ registry_handler rest ])
  ]

pub exit_loop : List Answers → Ptr → Cmd Server (Unit {0})
exit_loop [] client_list = if client_list == null then pure tt else (λ _. out_of_fuel)
exit_loop (w ∷ rest) client_list = if client_list == null then pure tt else do
  n ← load client_list
  unregister_client w n.client.pid true
  after ← load client_list
  exit_loop rest after.next

-- `exit_server`: each client of the list is unregistered, with a message to it, and the registry's
-- thread is told to stop.
pub exit_server : List Answers → Cmd Server (Unit {0})
exit_server answers = do
  client_list ← gets (λ s. s.clients)
  exit_loop answers client_list
  modify (λ s. record s { stop_registry = true })
