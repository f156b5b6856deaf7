-- ===== src/Server/Tests.antt =====
-- Concrete lists of clients, at which the theorems on them apply.
use tinyfile.Common.{ℕ, ◌+◌, ◌≡◌, ◌≢◌, refl, true, false, none, some, [], ◌∷◌, arith}
use tinyfile.Common.Run.{ok, fault, then_run}
use tinyfile.Common.Returns.{Returns}
use tinyfile.Common.Memory.{Ptr, null, write}
use tinyfile.Types.{RegistryEntry, client_register}
use tinyfile.Server.{Client, Node, Server, append_client, remove_client, find_client}
use tinyfile.Server.Clients.{Cell, node_of, IsClients}
use tinyfile.Server.Clients.Append.{new_cell, appended, append_client-appended}
use tinyfile.Server.Clients.Remove.{joined, remove_client-joined}
use tinyfile.Server.Registry
use tinyfile.Server.Registry.{
  message, Answers, init_worker_threads, new_client, unregister_client, exit_server,
}
use tinyfile.Server.Registry.Lookup.{find_client-node_with}
use tinyfile.Server.Registry.Unregister.{
  Idle, unregister_client-joined, unregister_client-find_client,
}
use tinyfile.Server.Threads.Restart.{ready}
use tinyfile.Server.Process.{running, opened, failed}
use tinyfile.Server.Compress.Tests.{world_of, keeping, file}
use tinyfile.Server.Machine.{Machine}
use tinyfile.Server.Machine.Thread.{registry, registry_handler-ready}
use tinyfile.Server.Registry.Exit.{exit_server-clients}

abbrev client_of : ℕ → Client
client_of pid = record {
  pid = pid;
  send_q = pid + 1;
  recv_q = pid + 2;
  shm_addr = 4096;
  shm_size = 400;
  shm_name = [];
  stop_client_threads = false;
  num_requests_started = 0;
  num_requests_completed = 0;
}

-- Two clients, at the addresses 1 and 2.
abbrev cell_one : Cell
cell_one = record { addr = 1; client = client_of 10; tail = 2 }

abbrev cell_two : Cell
cell_two = record { addr = 2; client = client_of 20; tail = 2 }

abbrev node_three : Node
node_three = node_of (new_cell 3 (client_of 30)) null null

abbrev two_clients : Server
two_clients = record {
  heap =
      write (write (λ _. none) 1 (some (node_of cell_one null 2))) 2
        (some (node_of cell_two 1 null));
  clients = 1;
  stop_registry = false;
  pills = [];
}

two_clients-IsClients : IsClients two_clients (cell_one ∷ cell_two ∷ [])
unfolding write
two_clients-IsClients = record {
  linked = (omega arith, refl, refl, (omega arith, refl, refl, tt));
  head = refl;
  tail = refl;
}

-- The same with a node that is not yet in the list.
abbrev with_three : Server
with_three = record two_clients { heap = write two_clients.heap 3 (some node_three) }

with_three-IsClients : IsClients with_three (cell_one ∷ cell_two ∷ [])
unfolding write
with_three-IsClients = record {
  linked = (omega arith, refl, refl, (omega arith, refl, refl, tt));
  head = refl;
  tail = refl;
}

with_three-at : with_three.heap 3 ≡ some node_three
unfolding write
with_three-at = refl

two_clients-unused : two_clients.heap 3 ≡ none
unfolding write
two_clients-unused = refl

append_client-appended_example :
    Returns
      (λ _ t.
        IsClients t (appended (cell_one ∷ cell_two ∷ []) (new_cell 3 (client_of 30)))
        × (t.stop_registry ≡ false)
        × (t.pills ≡ []))
      (append_client 3 with_three)
append_client-appended_example =
    append_client-appended with_three (cell_one ∷ cell_two ∷ []) 3 node_three with_three-IsClients
      (omega arith) with_three-at refl

remove_client-joined_example :
    Returns
      (λ _ t.
        IsClients t (joined cell_one [] [])
        × (t.heap 2 ≡ two_clients.heap 2)
        × (t.stop_registry ≡ false)
        × (t.pills ≡ []))
      (remove_client 2 two_clients)
remove_client-joined_example =
    remove_client-joined two_clients cell_one [] cell_two [] two_clients-IsClients

find_client-node_with_example : find_client 3 20 two_clients ≡ ok 2 two_clients
find_client-node_with_example =
    find_client-node_with 3 20 two_clients (cell_one ∷ cell_two ∷ []) two_clients-IsClients
      (omega arith)

abbrev answers : Answers
answers = record {
  send_q = some 41;
  recv_q = some 42;
  shm = some (400, 8192);
  fresh = 3;
  unset = node_three;
  walk = 3;
  waiting = (λ s. s) ∷ [];
}

abbrev registration : RegistryEntry
registration = record {
  cmd = client_register;
  pid = 40;
  send_q_name = [];
  recv_q_name = [];
  shm_name = [];
}

abbrev machine : Machine
machine = record {
  process = record {
    server = two_clients;
    global_registry = 4;
    queues = [];
    thread = running;
    exits = true;
  };
  pools = λ p. ready;
  memories = λ name. [];
  disk = [];
  answers = answers;
  leaving = [];
  starting = record { open_first = opened 4; open_second = failed; creates = true };
  world = world_of keeping;
  grown = none;
  unset = file;
}

registry_handler-ready_example :
    Returns
      (λ outcome t.
        (outcome ≡ Registry.running)
        × IsClients t.process.server (
            appended
              (cell_one ∷ cell_two ∷ [])
              (new_cell 3 (init_worker_threads (new_client answers registration 41 42 400 8192))))
        × (t.pools 3 ≡ ready)
        × ((p : Ptr) → p ≢ 3 → t.pools p ≡ ready))
      (registry.registry_handler (message registration answers ∷ []) machine)
registry_handler-ready_example =
    registry_handler-ready answers registration machine (cell_one ∷ cell_two ∷ []) 41 42 400 8192
      refl refl two_clients-IsClients (omega arith) refl refl refl refl (omega arith)
      two_clients-unused

cell_two-Idle : Idle answers 20 cell_two two_clients (cell_one ∷ cell_two ∷ [])
cell_two-Idle = record {
  listed = two_clients-IsClients;
  walk = omega arith;
  found = refl;
  rest = [];
  waiting = refl;
  done = refl;
}

cell_one-Idle : Idle answers 10 cell_one two_clients (cell_one ∷ cell_two ∷ [])
cell_one-Idle = record {
  listed = two_clients-IsClients;
  walk = omega arith;
  found = refl;
  rest = [];
  waiting = refl;
  done = refl;
}

unregister_client-joined_example :
    Returns
      (λ code t.
        (code ≡ 0) × IsClients t (joined cell_one [] []) × (t.heap 2 ≡ none) × (t.pills ≡ 21 ∷ []))
      (unregister_client answers 20 true two_clients)
unregister_client-joined_example =
    unregister_client-joined answers 20 true two_clients cell_one [] cell_two [] cell_two-Idle

unregister_client-find_client_example :
    then_run (unregister_client answers 10 false two_clients) (λ _. find_client 3 20) ≡ fault
unregister_client-find_client_example =
    unregister_client-find_client answers 10 false two_clients cell_one cell_two [] 2 20
      cell_one-Idle

exit_server-clients_example : exit_server (answers ∷ answers ∷ []) two_clients ≡ fault
exit_server-clients_example =
    exit_server-clients answers (answers ∷ []) two_clients cell_one (cell_two ∷ []) cell_one-Idle
