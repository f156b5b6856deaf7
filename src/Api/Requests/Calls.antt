-- ===== src/Api/Requests/Calls.antt =====
-- `tinyfile_sync` and `tinyfile_async`, from the arguments to the queued request and the answer.
use tinyfile.Common.{
  ℕ, ◌+◌, ◌%◌, ◌^◌, ◌<◌, ◌≤◌, ◌≡◌, ◌≢◌, refl, true, false, none, some, List, ◌∷◌, ◌++◌, arith, ltb,
  length, set, replicate, get_elem?-set_self,
}
use tinyfile.Common.Run.{Run, ok, Cmd}
use tinyfile.Common.Returns
use tinyfile.Common.Returns.{Returns, returns}
use tinyfile.Types.{Request, SharedEntry, Arg, Service}
use tinyfile.Common.Memory.{Ptr, null}
use tinyfile.RequestQ.{Queue, enqueue}
use tinyfile.RequestQ.Chain.{Cells, SameBut}
use tinyfile.RequestQ.Insert.{insert}
use tinyfile.RequestQ.Refine.{IsQueue, enqueue-insert}
use tinyfile.Api.{Api, Others, put_queue, on_queue}
use tinyfile.Api.Shm.{Answers, new_shm_size}
use tinyfile.Api.Entries.{taken}
use tinyfile.Api.Entries.Find.{FreeAt, quiet, find_shared_entry-first}
use tinyfile.Api.Entries.Poll.{Shows, taken_off, recv_response-first}
use tinyfile.Api.Requests.{
  Call, priority_error, next_id, prepare_request, tinyfile_sync, tinyfile_async,
}

put_queue-Returns :
    {A : Type 0} {P : A → Queue → Type 0} (s : Api) (r : Run Queue A)
    → Returns P r
    → Returns (λ a t. (t ≡ record s { requests = t.requests }) × P a t.requests) (put_queue s r)
put_queue-Returns s r (returns p) = returns (refl, p)

-- A run of a queue command leaves the rest of the state alone.
on_queue-Returns :
    {A : Type 0} {P : A → Queue → Type 0} (m : Cmd Queue A) (s : Api)
    → Returns P (m s.requests)
    → Returns (λ a t. (t ≡ record s { requests = t.requests }) × P a t.requests) (on_queue m s)
on_queue-Returns m s r = put_queue-Returns s (m s.requests) r

-- What the request queue is once the request `r` has been put to `xs`, in a node at `p`.
pub record Enqueued (p : Ptr) (r : Request) (xs : Cells) (old new : Queue) : Type 0 where
  pub queued : IsQueue new (insert (p, r) xs)
  pub others : SameBut (insert (p, r) xs) old.heap new.heap
  pub stop : new.stop_worker ≡ old.stop_worker

FreeAt-next :
    {sizeof_entry i : ℕ} (id : ℕ) {s : Api}
    → FreeAt sizeof_entry i s
    → FreeAt sizeof_entry i (record s { global_request_id = id })
unfolding new_shm_size
FreeAt-next id f = record {
  entry = f.entry;
  small = f.small;
  within = f.within;
  there = f.there;
  unused = f.unused;
  busy = f.busy;
  calm = f.calm;
}

module _ (sizeof_entry : ℕ) (c : Call) (arg : Arg) (service : Service) (priority : ℕ)
    (s : Api) where
  -- A priority above 31 is refused by both calls, and nothing is changed: no entry is taken, no
  -- request number is used and nothing is queued.
  pub priority-refused :
      31 < priority
      → (tinyfile_sync sizeof_entry c arg service priority s ≡ ok (priority_error, none) s)
        × (tinyfile_async sizeof_entry c arg service priority s ≡ ok (priority_error, none) s)
  unfolding tinyfile_sync tinyfile_async prepare_request
  priority-refused high =
      let refused : ltb 31 priority ≡ true = ground arith in (rw refused, rw refused)

  -- The request that a call makes for the entry `i`.
  abbrev pub made : ℕ → Request
  made i = record (c.unset) {
    service = service;
    pid = c.pid;
    priority = priority;
    request_id = s.global_request_id;
    entry_idx = i;
  }

  -- What a call needs: a priority that is allowed, an entry that is free, a queue in order with room
  -- for the walk, and a node from `malloc`.
  pub record Ready (i : ℕ) (xs : Cells) : Type 0 where
    pub answers : List Answers
    pub finding : c.finding ≡ quiet answers
    pub rounds : i < length answers
    pub allowed : priority ≤ 31
    pub free : FreeAt sizeof_entry i s
    pub queue : IsQueue s.requests xs
    pub fresh : c.fresh ≢ null
    pub unused : s.requests.heap c.fresh ≡ none
    pub walk : length xs < c.walk

  -- The state when the request has been prepared.
  abbrev pub prepared : ℕ → Api
  prepared i = record s {
    entries = set s.entries i (taken arg);
    global_request_id = (s.global_request_id + 1) % 2 ^ 32;
  }

  module _ {i : ℕ} {xs : Cells} (ready : Ready i xs) where
    pub prepare_request-made :
        prepare_request sizeof_entry c arg service priority s ≡ ok (0, made i) (prepared i)
    unfolding prepare_request next_id
    prepare_request-made =
        let within : ltb 31 priority ≡ false = ground (arith, ready.allowed) in
        rw (
          within,
          ready.finding,
          find_shared_entry-first sizeof_entry arg
              (record s { global_request_id = (s.global_request_id + 1) % 2 ^ 32 }) i ready.answers
              (FreeAt-next _ ready.free) ready.rounds,
        )

    pub enqueued :
        Returns
          (λ _ t.
            Enqueued c.fresh (made i) xs s.requests t.requests
            × (t ≡ record (prepared i) { requests = t.requests }))
          (on_queue (enqueue c.walk c.fresh (made i)) (prepared i))
    enqueued =
        Returns.weaken
          (λ _ t (same, (queued, others, stop)).
            (record { queued = queued; others = others; stop = stop }, same))
          (on_queue-Returns (enqueue c.walk c.fresh (made i)) (prepared i) (
            enqueue-insert c.walk c.fresh (made i) s.requests xs ready.queue ready.fresh
              ready.unused ready.walk))

    -- With an allowed priority and an entry that is free, `tinyfile_async` returns at once: it takes the entry for the argument, numbers the request, puts
    -- it into its place in the queue, and gives the entry's index; it changes nothing else.
    pub tinyfile_async-queued :
        Returns
          (λ (code, out) t.
            (code ≡ 0)
            × (out ≡ some i)
            × Enqueued c.fresh (made i) xs s.requests t.requests
            × (t ≡ record (prepared i) { requests = t.requests }))
          (tinyfile_async sizeof_entry c arg service priority s)
    unfolding tinyfile_async
    tinyfile_async-queued =
        rw prepare_request-made
          (Returns.chain enqueued λ _ t (q, same). returns (refl, refl, q, same))

    -- The entry that was taken is not served yet.
    pub Shows-prepared :
        (t : Api)
        → s.shm_resize_lock ≡ false
        → t ≡ record (prepared i) { requests = t.requests }
        → Shows sizeof_entry i (taken arg) t
    Shows-prepared t open_lock same = rw same (record {
      open_lock = open_lock;
      within = ready.free.within;
      there = get_elem?-set_self s.entries i (taken arg) ready.free.there;
    })

    -- With an allowed priority and an entry that is free, before the middle of the mapping or with no room
    -- for a resize (`FreeAt`), `tinyfile_sync` returns 0 when others, in the
    -- round after `n` failed polls, have served the entry and left the mapping where it is: with what
    -- they left in the entry, which is free again, and after the request was put into the queue.
    pub tinyfile_sync-served :
        (n : ℕ) (o : Others) (rest : List Others) (e : SharedEntry)
        → c.polling ≡ replicate n (λ u. u) ++ (o ∷ rest)
        → s.shm_resize_lock ≡ false
        → e.done ≡ true
        → ((t : Api)
            → t ≡ record (prepared i) { requests = t.requests }
            → Enqueued c.fresh (made i) xs s.requests t.requests
            → ((o t).shm_addr ≡ t.shm_addr) × Shows sizeof_entry i e (o t))
        → Returns
            (λ (code, out) u.
              (code ≡ 0)
              × (out ≡ some e.arg)
              × ((t : Api) × Enqueued c.fresh (made i) xs s.requests t.requests
                  × (t ≡ record (prepared i) { requests = t.requests })
                  × (u ≡ taken_off (o t) i e)))
            (tinyfile_sync sizeof_entry c arg service priority s)
    unfolding tinyfile_sync
    tinyfile_sync-served n o rest e polls open_lock d serve =
        rw (prepare_request-made, polls)
          (Returns.chain enqueued λ _ t (queued, same).
            let (stays, shows) = serve t same queued in
            let polled =
              recv_response-first sizeof_entry i n o rest t (taken arg) e
                (Shows-prepared t open_lock same) refl stays shows d in
            rw polled (returns (refl, refl, (t, queued, same, refl))))
