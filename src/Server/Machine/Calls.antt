-- ===== src/Server/Machine/Calls.antt =====
-- src/server/server.c against its header: what its functions give whenever they return.
use tinyfile.Common.{ℕ, ◌≡◌, refl, ap, ◌∙◌, inl, inr, Bool-cases, Option-cases, ◌==◌, if◌then◌else◌}
use tinyfile.Common.Run.{Run, ok, fault, blocked, out_of_fuel, Cmd, pure}
use tinyfile.Common.Gives.{Gives, gives, faults, blocks, runs_out, after, whatever, weaken}
use tinyfile.Common.Memory.{Ptr, null}
use tinyfile.Server.{Node, Server, find_client, remove_client, load, free}
use tinyfile.Server.Compress.{Disk}
use tinyfile.Server.Worker.{Work, handle_request, resize_shm}
use tinyfile.Server.Threads.{Pool, init_pool, cleanup_worker_threads, restart}
use tinyfile.Server.Registry.{wait_requests, send_pill}
use tinyfile.Server.Process.{put_server}
use tinyfile.Server.Registry.Codes.{register_client-code}
use tinyfile.Server.Compress.Codes.{compress_service-Answered}
use tinyfile.Server.Interface.{IsServer}
use tinyfile.Server.Machine.{
  Machine, put_process, on_list, put_pool, on_pool, work_of, put_work, on_work, put_disk,
  client_list, registration, ipc, services, server,
}
use tinyfile.Server.Machine.Heads.{
  find_client-same, append_client-head, remove_client-head, update-SameHead, load-same,
}

-- A command on the server, in the whole: only the server changes.
pub list-Gives :
    {A : Type 0} {P : A → Server → Type 0} (s : Machine) (r : Run Server A)
    → Gives P r
    → Gives
        (λ a t.
          (u : Server) × (t ≡ record s { process = record (s.process) { server = u } }) × P a u)
        (put_process s (put_server s.process r))
list-Gives s r (gives p) = gives (_, refl, p)
list-Gives s r faults = faults
list-Gives s r blocks = blocks
list-Gives s r runs_out = runs_out

abbrev pub head : Machine → Ptr
head s = s.process.server.clients

-- A command on the files leaves the rest alone.
disk-Gives :
    {A : Type 0} {P : A → Type 0} (s : Machine) (r : Run Disk A)
    → Gives (λ a _. P a) r
    → Gives (λ a t. P a × (head t ≡ head s)) (put_disk s r)
disk-Gives s r (gives p) = gives (p, refl)
disk-Gives s r faults = faults
disk-Gives s r blocks = blocks
disk-Gives s r runs_out = runs_out

-- So does a command on the threads of a client.
pool-Gives :
    (s : Machine) (p : Ptr) (r : Run Pool (Unit {0}))
    → Gives (λ _ t. head t ≡ head s) (put_pool s p r)
pool-Gives s p (ok a t) = gives refl
pool-Gives s p fault = faults
pool-Gives s p blocked = blocks
pool-Gives s p out_of_fuel = runs_out

-- A command on the workers' part changes nothing of the list but a client.
on_work-head :
    {A : Type 0} (p : Ptr) (m : Cmd Work A) (s : Machine)
    → Gives (λ _ t. head t ≡ head s) (on_work p m s)
on_work-head p m s =
    after (list-Gives s (load p s.process.server) (load-same p s.process.server))
      λ n t (u, same, e).
        rw (same, e)
          (after (put_work-Gives s n (m (work_of s n.client))) λ (a, w) v f.
            after (list-Gives v _ (update-SameHead p _ v.process.server))
              λ _ x (y, g, h). gives (ap head g ∙ h ∙ f))
  where
    put_work-Gives :
        {A : Type 0} (s : Machine) (n : Node) (r : Run Work A)
        → Gives (λ _ t. head t ≡ head s) (put_work s n.client.shm_name r)
    put_work-Gives s n (ok a w) = gives refl
    put_work-Gives s n fault = faults
    put_work-Gives s n blocked = blocks
    put_work-Gives s n out_of_fuel = runs_out

-- Whenever the server's functions return: a search leaves everything as it was; the head of the list of
-- clients changes only when an empty list gets its first client or the only client is removed; neither a
-- request that is served, nor a compression, nor a resize moves it; `register_client` ends the process or
-- returns 0, `unregister_client` returns 0, and `compress_service` returns 0 or -1 with the source path
-- untouched.
pub server-IsServer : (sizeof_entry : ℕ) → IsServer head (server sizeof_entry)
unfolding server client_list registration ipc services
server-IsServer size = record {
  find_keeps = λ pid s.
      weaken (λ _ t (u, same, e). rw (same, e) refl)
        (list-Gives s _ (find_client-same s.answers.walk pid s.process.server));
  append_head = λ p s.
      weaken (λ _ t (u, same, e). rw same e)
        (list-Gives s _ (append_client-head p s.process.server));
  remove_head = λ p s.
      weaken (λ _ t (u, same, e). rw same e)
        (list-Gives s _ (remove_client-head p s.process.server));
  register_code = λ e s. whatever (on_list (find_client s.answers.walk e.pid) s) λ found t.
      after (list-Gives t _ (register_client-code s.answers e t.process.server)) λ code u (_, _, k).
        elim k [
          | inl exits ↦ rw exits (gives (inl refl))
          | inr returns ↦ rw returns (elim (Bool-cases (found == null)) [
            | inl new ↦
                rw new (whatever (on_pool s.answers.fresh init_pool u) λ _ v. gives (inr refl))
            | inr known ↦ rw known (gives (inr refl))
          ])
        ];
  unregister_code = λ pid close s. whatever (on_list (find_client s.answers.walk pid) s) λ node t.
      elim (Bool-cases (node == null)) [
        | inl unknown ↦ rw unknown (gives refl)
        | inr known ↦ rw known (
            whatever ((if close then on_list (send_pill node) else pure tt) t) λ _ u.
              whatever (on_list (remove_client node) u) λ _ v.
                whatever (on_list (wait_requests s.answers.waiting node) v) λ _ x.
                  whatever (on_pool node cleanup_worker_threads x)
                    λ _ y. whatever (on_list (free node) y) λ _ z. gives refl)
      ];
  handle_head = λ req p s. on_work-head p (handle_request size s.world req) s;
  resize_head = λ p s. after (on_work-head p (resize_shm size s.grown s.unset) s) λ message t same.
      elim (Option-cases message) [
        | inl exits ↦ rw exits (gives same)
        | inr (m, sent) ↦
            rw sent (after (pool-Gives t p (restart (t.pools p))) λ _ u kept. gives (kept ∙ same))
      ];
  compress_code = λ arg s.
      weaken (λ r t ((code, path), same). (code, path, same))
        (disk-Gives s _ (compress_service-Answered s.world arg s.disk));
}
