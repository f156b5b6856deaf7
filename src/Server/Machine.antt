-- ===== src/Server/Machine.antt =====
-- src/server/server.c as the implementation of its header: the process, the worker threads, the
-- clients' memories and the files in one state.
pub mod Calls
pub mod Heads
pub mod Register
pub mod Thread
pub mod Workers
use tinyfile.Common.{ℕ, Bool, true, false, Option, none, some, List, ◌==◌, not, if◌then◌else◌}
use tinyfile.Common.Run.{Run, ok, fault, blocked, out_of_fuel, Cmd, pure, ◌>>=◌, ◌>>◌, gets, modify}
use tinyfile.Common.Memory.{Ptr, null}
use tinyfile.Types.{Arg, CString, RegistryEntry, Request, SharedEntry}
use tinyfile.Api.Session.{same_name}
use tinyfile.Server
use tinyfile.Server.{Client, Node, Server, load, update, free}
use tinyfile.Server.Compress
use tinyfile.Server.Compress.{World, Disk}
use tinyfile.Server.Worker
use tinyfile.Server.Worker.{Work}
use tinyfile.Server.Registry
use tinyfile.Server.Registry.{Answers, wait_requests, send_pill}
use tinyfile.Server.Threads.{Pool, init_pool, cleanup_worker_threads, restart}
use tinyfile.Server.Process
use tinyfile.Server.Process.{Process, Starting, put_server, on_server}
use tinyfile.Server.Interface.{ClientList, Registration, Ipc, Services, ServerApi}

-- `pools` are the worker threads of the client at an address, `memories` the shared memory objects by
-- name. What the world gives to the next call of each kind is part of the state.
pub record Machine : Type 0 where
  pub process : Process
  pub pools : Ptr → Pool
  pub memories : CString → List SharedEntry
  pub disk : Disk
  pub answers : Answers
  pub leaving : List Answers
  pub starting : Starting
  pub world : World
  pub grown : Option ℕ
  pub unset : Arg

abbrev pub put_process : {A : Type 0} → Machine → Run Process A → Run Machine A
put_process s (ok a t) = ok a (record s { process = t })
put_process s fault = fault
put_process s blocked = blocked
put_process s out_of_fuel = out_of_fuel

abbrev pub on_process : {A : Type 0} → Cmd Process A → Cmd Machine A
on_process m s = put_process s (m s.process)

abbrev pub on_list : {A : Type 0} → Cmd Server A → Cmd Machine A
on_list m = on_process (on_server m)

abbrev pub put_pool : Machine → Ptr → Run Pool (Unit {0}) → Run Machine (Unit {0})
put_pool s p (ok a t) = ok a (record s { pools = λ q. if q == p then t else s.pools q })
put_pool s p fault = fault
put_pool s p blocked = blocked
put_pool s p out_of_fuel = out_of_fuel

abbrev pub on_pool : Ptr → Cmd Pool (Unit {0}) → Cmd Machine (Unit {0})
on_pool p m s = put_pool s p (m (s.pools p))

-- What the workers of a client share, and how a state takes it in again.
abbrev pub work_of : Machine → Client → Work
work_of s c = record {
  mapped = c.shm_size;
  entries = s.memories c.shm_name;
  disk = s.disk;
  stop_client_threads = c.stop_client_threads;
  num_requests_started = c.num_requests_started;
  num_requests_completed = c.num_requests_completed;
  resizes = 0;
}

abbrev pub remember :
    CString → List SharedEntry → (CString → List SharedEntry) → CString → List SharedEntry
remember name es memories other = if same_name other name then es else memories other

abbrev pub put_work : {A : Type 0} → Machine → CString → Run Work A → Run Machine (A × Work)
put_work s name (ok a w) =
    ok (a, w) (record s { disk = w.disk; memories = remember name w.entries s.memories })
put_work s name fault = fault
put_work s name blocked = blocked
put_work s name out_of_fuel = out_of_fuel

abbrev pub in_client : Work → Client → Client
in_client w c = record c {
  shm_size = w.mapped;
  stop_client_threads = w.stop_client_threads;
  num_requests_started = w.num_requests_started;
  num_requests_completed = w.num_requests_completed;
}

abbrev pub on_work : {A : Type 0} → Ptr → Cmd Work A → Cmd Machine A
on_work p m = do
  n ← on_list (load p)
  (a, w) ← (λ s. put_work s n.client.shm_name (m (work_of s n.client)))
  on_list (update p (λ k. record k { client = in_client w k.client }))
  pure a

abbrev pub put_disk : {A : Type 0} → Machine → Run Disk A → Run Machine A
put_disk s (ok a t) = ok a (record s { disk = t })
put_disk s fault = fault
put_disk s blocked = blocked
put_disk s out_of_fuel = out_of_fuel

abbrev pub on_disk : {A : Type 0} → Cmd Disk A → Cmd Machine A
on_disk m s = put_disk s (m s.disk)

-- The list, and the number of rounds that its walk is given.
pub client_list : ClientList Machine
client_list = record {
  find_client = λ pid. do
    w ← gets (λ s. s.answers)
    on_list (Server.find_client w.walk pid);
  remove_client = λ p. on_list (Server.remove_client p);
  append_client = λ p. on_list (Server.append_client p);
}

-- A new client gets its worker threads; one that goes has them cancelled before its node is freed.
pub registration : Registration Machine
registration = record {
  register_client = λ e. do
    w ← gets (λ s. s.answers)
    found ← on_list (Server.find_client w.walk e.pid)
    code ← on_list (Registry.register_client w e)
    elim code [
      | none ↦ pure none
      | some c ↦ if found == null then on_pool w.fresh init_pool >> pure (some c) else pure (some c)
    ];
  unregister_client = λ pid close. do
    w ← gets (λ s. s.answers)
    node ← on_list (Server.find_client w.walk pid)
    if node == null then pure 0 else do
      if close then on_list (send_pill node) else pure tt
      on_list (Server.remove_client node)
      on_list (wait_requests w.waiting node)
      on_pool node cleanup_worker_threads
      on_list (free node)
      pure 0;
}

module _ (sizeof_entry : ℕ) where
  pub ipc : Ipc Machine
  ipc = record {
    open_shm = λ e c. gets (λ s. Registry.open_shm s.answers.shm e c);
    resize_shm = λ p. do
      size ← gets (λ s. s.grown)
      unset ← gets (λ s. s.unset)
      message ← on_work p (Worker.resize_shm sizeof_entry size unset)
      elim message [ none ↦ pure none | some m ↦ on_pool p restart >> pure (some m) ];
    init_server = do
      w ← gets (λ s. s.starting)
      on_process (Process.init_server w);
    exit_server = do
      ws ← gets (λ s. s.leaving)
      on_process (Process.exit_server ws);
  }

  pub services : Services Machine
  services = record {
    compress_service = λ arg. do
      w ← gets (λ s. s.world)
      on_disk (Compress.compress_service w arg);
    handle_request = λ req p. do
      w ← gets (λ s. s.world)
      on_work p (Worker.handle_request sizeof_entry w req);
  }

  pub server : ServerApi Machine
  server = record {
    list = client_list;
    registration = registration;
    ipc = ipc;
    services = services;
  }
