-- ===== src/Server/Machine/Workers.antt =====
-- src/server/server.c: the workers of a client, from the request that they serve to the calls that start
-- and join them.
use tinyfile.Common.{
  ℕ, ◌≡◌, refl, arith, inl, inr, ap, ◌∙◌, sym, Bool, true, false, Bool-cases, Option, none, some,
  List, ◌==◌,
}
use tinyfile.Common.Run.{Run, ok, fault, blocked, out_of_fuel, Cmd, ◌>>◌, need}
use tinyfile.Common.Gives.{Gives, gives, faults, blocks, runs_out, after, anything, weaken}
use tinyfile.Common.Memory.{Ptr, null, write}
use tinyfile.Types.{Request}
use tinyfile.Server.{Node, Server, load, store, update}
use tinyfile.Server.Compress.{World, Disk}
use tinyfile.Server.Worker
use tinyfile.Server.Worker.{Work}
use tinyfile.Server.Worker.Stopped.{service_worker-stopped}
use tinyfile.Server.Registry.{init_worker_threads}
use tinyfile.Server.Threads
use tinyfile.Server.Threads.{Pool, Thread}
use tinyfile.Server.Machine.{Machine, on_list, on_pool, put_pool, on_work, work_of, remember}
use tinyfile.Server.Machine.Heads.{load-same}
use tinyfile.Server.Machine.Calls.{list-Gives}

-- `service_worker` is given what its rounds receive; `join_worker_threads` which worker calls it.
pub record Workers (S : Type 0) : Type 0 where
  pub files : S → Disk
  pub handle_request : World → Request → Ptr → Cmd S (Unit {0})
  pub service_worker : Ptr → List (Option Request × World) → Cmd S (Unit {0})
  pub start_worker_threads : Ptr → Cmd S (Unit {0})
  pub init_worker_threads : Ptr → Cmd S (Unit {0})
  pub join_worker_threads : Option ℕ → Ptr → Cmd S (Unit {0})
  -- Behind a join, no worker of the client writes a file.
  pub joined_writes :
      (self : Option ℕ) (p : Ptr) (rounds : List (Option Request × World)) (s : S)
      → Gives
          (λ _ t. Gives (λ _ u. files u ≡ files t) (service_worker p rounds t))
          (join_worker_threads self p s)

abbrev pub told : Bool → Node → Node
told stop n = record n { client = record (n.client) { stop_client_threads = stop } }

-- The node at an address belongs to a client whose threads are told to stop.
abbrev pub Stopped : Ptr → Server → Type 0
Stopped p s = (n : Node) × (s.heap p ≡ some (told true n))

update-Stopped : (p : Ptr) (s : Server) → Gives (λ _ t. Stopped p t) (update p (told true) s)
unfolding update store write
update-Stopped p s = after (load-same p s) λ n t e. gives (n, ground arith)

load-there : (p : Ptr) (s : Server) → Gives (λ n t. (s.heap p ≡ some n) × (t ≡ s)) (load p s)
unfolding load
load-there p s = elim (Bool-cases (p == null)) [
  | inl nothing ↦ rw nothing faults
  | inr there ↦ rw there (needed (s.heap p))
]
  where
    needed : (o : Option Node) → Gives (λ n t. (o ≡ some n) × (t ≡ s)) (need o s)
    needed none = faults
    needed (some n) = gives (refl, refl)

-- A command on the threads of a client, when it returns, touches neither the files nor the process.
pool-same :
    (s : Machine) (p : Ptr) (r : Run Pool (Unit {0}))
    → Gives (λ _ t. (t.process ≡ s.process) × (t.disk ≡ s.disk)) (put_pool s p r)
pool-same s p (ok a t) = gives (refl, refl)
pool-same s p fault = faults
pool-same s p blocked = blocks
pool-same s p out_of_fuel = runs_out

module _ (sizeof_entry : ℕ) where
  service_worker-files :
      (p : Ptr) (rounds : List (Option Request × World)) (s : Machine)
      → Stopped p s.process.server
      → Gives (λ _ t. t.disk ≡ s.disk) (on_work p (Worker.service_worker sizeof_entry rounds) s)
  service_worker-files p rounds s (n, at) =
      after (list-Gives s (load p s.process.server) (load-there p s.process.server))
        λ k t (u, same, (found, e)).
          let stop : k.client.stop_client_threads ≡ true = stops k n (sym found ∙ at) in
          let disk : t.disk ≡ s.disk = ap (λ m. m.disk) same in
          rw (service_worker-stopped sizeof_entry rounds (work_of t k.client) stop) (
            let name = k.client.shm_name in
            let left : Machine = record t {
              memories = remember name (t.memories name) t.memories;
            } in
            after (list-Gives left (update p _ left.process.server) (anything _))
              λ _ v (w, kept, _). gives (ap (λ m. m.disk) kept ∙ disk))
    where
      stops : (k n : Node) → some k ≡ some (told true n) → k.client.stop_client_threads ≡ true
      stops k n e = ap (λ o. elim o [ none ↦ true | some m ↦ m.client.stop_client_threads ]) e

  pub join-files :
      (self : Option ℕ) (p : Ptr) (rounds : List (Option Request × World)) (s : Machine)
      → Gives
          (λ _ t.
            Gives
              (λ _ u. u.disk ≡ t.disk)
              (on_work p (Worker.service_worker sizeof_entry rounds) t))
          ((on_list (update p (told true)) >> on_pool p (Threads.join_worker_threads self)) s)
  join-files self p rounds s =
      after (list-Gives s _ (update-Stopped p s.process.server)) λ _ t (u, same, stopped).
        weaken (λ _ v (kept, disk). service_worker-files p rounds v (rw (kept, same) stopped))
          (pool-same t p (Threads.join_worker_threads self (t.pools p)))

  -- The functions of src/server/server.c on its whole state.
  abbrev pub workers : Workers Machine
  workers = record {
    files = λ s. s.disk;
    handle_request = λ w req p. on_work p (Worker.handle_request sizeof_entry w req);
    service_worker = λ p rounds. on_work p (Worker.service_worker sizeof_entry rounds);
    start_worker_threads =
        λ p. on_list (update p (told false)) >> on_pool p Threads.start_worker_threads;
    init_worker_threads = λ p.
        on_list (update p (λ n. record n { client = init_worker_threads n.client }))
        >> on_pool p Threads.init_pool;
    join_worker_threads =
        λ self p. on_list (update p (told true)) >> on_pool p (Threads.join_worker_threads self);
    joined_writes = join-files;
  }
