-- ===== src/Api/Session/Lifetime.antt =====
-- src/api/api.c: `tinyfile_exit`, alone and after `tinyfile_init`.
use tinyfile.Common.{
  ℕ, ◌^◌, ◌<◌, ◌≡◌, refl, true, false, none, some, List, [], ◌∷◌, ◌++◌, arith, length, ap, ◌∙◌,
}
use tinyfile.Common.Run.{Run, then_run}
use tinyfile.Common.Returns
use tinyfile.Common.Returns.{Returns, returns}
use tinyfile.Common.Memory.{Ptr, Heap}
use tinyfile.Types.{CString, RegistryEntry, client_unregister}
use tinyfile.RequestQ.{Node, Queue, destroy}
use tinyfile.RequestQ.Chain.{Cells, holds}
use tinyfile.RequestQ.Refine.{IsQueue}
use tinyfile.RequestQ.Shutdown.{destroy-frees}
use tinyfile.Api.{put_queue}
use tinyfile.Api.Session.{
  Session, Opening, put_api, exit_error, sendq_prefix, recvq_prefix, decimal, create_queues,
  same_name, unlink, create_shm, tinyfile_init, destroy_queues, destroy_shm, tinyfile_exit,
}
use tinyfile.Api.Session.Opened.{IsOpen, Succeeds, registration, tinyfile_init-Opened}

same_name_refl : (s : CString) → same_name s s ≡ true
unfolding same_name
same_name_refl [] = refl
same_name_refl (a ∷ s) = ground (arith, same_name_refl s)

pub unlink-newest : (x : CString) (xs : List CString) → unlink x (x ∷ xs) ≡ xs
unfolding unlink
unlink-newest x xs = rw (same_name_refl x)

pub unlink-behind :
    (x y : CString) (xs : List CString) → same_name x y ≡ false → unlink x (y ∷ x ∷ xs) ≡ y ∷ xs
unfolding unlink
unlink-behind x y xs apart = rw (apart, same_name_refl x)

-- What `tinyfile_exit` leaves of a session that was opened beside `qs` and `ms`, with `xs` queued.
pub record Closed (qs ms : List CString) (xs : Cells) (s : Session) (code : ℕ) (t : Session)
    : Type 0 where
  pub zero_code : code ≡ 0
  pub queues : t.queues ≡ qs
  pub shms : t.shms ≡ ms
  pub off : t.api.init ≡ false
  pub freed : (a : Ptr) → holds a xs ≡ true → t.api.requests.heap a ≡ none
  pub told : t.registry ≡ record (s.entry) { cmd = client_unregister } ∷ s.registry

-- A run of a queue command leaves the rest of the session alone.
put_api-Returns :
    {A : Type 0} {P : A → Queue → Type 0} (s : Session) (r : Run Queue A)
    → Returns P r
    → Returns
        (λ a t. (q : Queue) × (t ≡ record s { api = record (s.api) { requests = q } }) × P a q)
        (put_api s (put_queue s.api r))
put_api-Returns s r (returns p) = returns (_, refl, p)

-- The registry has been told that the client goes.
abbrev dismissed : Session → Session
dismissed s = record s {
  entry = record (s.entry) { cmd = client_unregister };
  registry = record (s.entry) { cmd = client_unregister } ∷ s.registry;
}

-- If its calls of the system succeed, `tinyfile_exit` of an open session returns 0: the session's queues
-- and its memory object are gone and no others, the nodes of the request queue are freed, the registry
-- has been told, and the library is not initialised.
pub tinyfile_exit-Closed :
    (rounds : ℕ) (qs ms : List CString) (s : Session) (xs : Cells)
    → IsOpen qs ms s
    → IsQueue s.api.requests xs
    → length xs < rounds
    → Returns (Closed qs ms xs s) (tinyfile_exit rounds true true s)
unfolding tinyfile_exit destroy_queues destroy_shm
tinyfile_exit-Closed rounds qs ms s xs opened is fuel = simp opened.ready (
    Returns.chain
      (put_api-Returns (dismissed s) (destroy rounds s.api.requests)
        (destroy-frees rounds s.api.requests xs is fuel))
      λ _ t (q, same, (gone, _, _, _)). rw same (
        simp (opened.queues, opened.shms, unlink-behind _ _ qs opened.apart, unlink-newest)
          (returns (record {
            zero_code = refl;
            queues = refl;
            shms = refl;
            off = refl;
            freed = gone;
            told = refl;
          }))))

module _ (sizeof_entry rounds : ℕ) (w : Opening) (heap : Heap Node) (s : Session)
    (closed : s.api.init ≡ false) where
  -- If every call of the system succeeds, `tinyfile_init` and then `tinyfile_exit` of a library that was not
  -- initialised, with the size and the limit of its memory below 2 ^ 31, return 0 and leave the queues and shared memory objects that there were before; the
  -- registry has been sent the client's registration, which is its process id and the names of its queues
  -- and memory, and then, with the same names and process id, its end; and the library is not initialised.
  pub tinyfile_init-tinyfile_exit :
      Succeeds w
      → s.api.shm_size < 2 ^ 31
      → s.api.shm_max_size < 2 ^ 31
      → 0 < rounds
      → Returns
          (λ code t.
            (code ≡ 0)
            × (t.queues ≡ s.queues)
            × (t.shms ≡ s.shms)
            × (t.api.init ≡ false)
            × (t.registry
                ≡ record (registration w.pid) { cmd = client_unregister }
                  ∷ registration w.pid
                  ∷ s.registry))
          (then_run (tinyfile_init sizeof_entry w heap s) (λ _. tinyfile_exit rounds true true))
  tinyfile_init-tinyfile_exit good small small_max fuel =
      Returns.chain (tinyfile_init-Opened sizeof_entry w heap s good closed small small_max)
        λ _ t o.
          Returns.weaken
            (λ _ u c. (
              c.zero_code,
              c.queues,
              c.shms,
              c.off,
              c.told
                  ∙ ap (λ es. record (t.entry) { cmd = client_unregister } ∷ es) o.registered
                  ∙ ap {A = RegistryEntry}
                      (λ e. record e { cmd = client_unregister } ∷ e ∷ s.registry) o.asks,
            ))
            (tinyfile_exit-Closed rounds s.queues s.shms t [] o.is_open o.empty fuel)

  -- If the queues open and then `shm_open` fails, `tinyfile_init` leaves both queues behind, and
  -- `tinyfile_exit`, which refuses with its error, does not remove them.
  pub tinyfile_init-leaks :
      (registry send_q recv_q : ℕ)
      → w.open_registry ≡ some registry
      → w.open_send_q ≡ some send_q
      → w.open_recv_q ≡ some recv_q
      → w.shm_open ≡ none
      → Returns
          (λ code t.
            (code ≡ exit_error)
            × (t.queues
                ≡ (recvq_prefix ++ decimal w.pid) ∷ (sendq_prefix ++ decimal w.pid) ∷ s.queues))
          (then_run (tinyfile_init sizeof_entry w heap s) (λ _. tinyfile_exit rounds true true))
  unfolding tinyfile_init create_queues create_shm tinyfile_exit
  tinyfile_init-leaks registry send_q recv_q opens_registry opens_send_q opens_recv_q fails =
      simp (closed, opens_registry, opens_send_q, opens_recv_q, fails) (returns (refl, refl))
