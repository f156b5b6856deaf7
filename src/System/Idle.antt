-- ===== src/System/Idle.antt =====
-- A library of which nothing is asked, and what a call makes of it when its request goes all the way: a
-- sequence of calls can be taken one by one.
use tinyfile.Common.{
  ℕ, ◌+◌, ◌%◌, ◌^◌, ◌<◌, ◌≤◌, ◌≡◌, ◌≢◌, refl, true, false, none, some, List, [], ◌∷◌, ◌++◌, arith,
  length, set, replicate, ap, ◌∙◌, ◌==◌, inl, inr, Bool-cases, get_elem?-set_self,
}
use tinyfile.Common.Run.{ok}
use tinyfile.Common.Returns
use tinyfile.Common.Returns.{Returns, returns}
use tinyfile.Common.Memory.{Ptr, null, Heap, write}
use tinyfile.Types.{Arg, Request, SharedEntry, compress, minus_one}
use tinyfile.RequestQ.{Node, Queue}
use tinyfile.RequestQ.Insert.{insert}
use tinyfile.RequestQ.Refine.{IsQueue}
use tinyfile.Server.Compress.{World, Disk, compress_service}
use tinyfile.Api.{Api, Others}
use tinyfile.Api.Shm.{Answers, new_shm_size}
use tinyfile.Api.Entries.{taken}
use tinyfile.Api.Entries.Find.{FreeAt, quiet}
use tinyfile.Api.Entries.Poll.{taken_off}
use tinyfile.Api.Requests.{Call, tinyfile_sync}
use tinyfile.Api.Requests.Calls.{
  Ready, Enqueued, made, prepared, Shows-prepared, tinyfile_sync-served,
}
use tinyfile.System.Transport.{Emptied, delivered, delivered-done}

-- The first entry is free, the locks are open, nothing is queued and the worker runs; the addresses that
-- are unused in `h` are unused.
pub record Idle (sizeof_entry : ℕ) (h : Heap Node) (s : Api) : Type 0 where
  pub free : FreeAt sizeof_entry 0 s
  pub open_lock : s.shm_resize_lock ≡ false
  pub queue : IsQueue s.requests []
  pub runs : s.requests.stop_worker ≡ false
  pub unused : (p : Ptr) → h p ≡ none → s.requests.heap p ≡ none

-- What the world gives to a call for `arg` so that it is served: `malloc` returns an unused address, and
-- after some polls the worker of the client and the one of the server do their part, which makes `out` of
-- the argument and `after` of the files `before`.
pub record Serves (sizeof_entry : ℕ) (h : Heap Node) (c : Call) (arg out : Arg)
    (before after : Disk) : Type 0 where
  pub answers : List Answers
  pub finding : c.finding ≡ quiet answers
  pub some_answers : 0 < length answers
  pub fresh : c.fresh ≢ null
  pub unused : h c.fresh ≡ none
  pub walk : 0 < c.walk
  pub world : World
  pub polls : ℕ
  pub rounds : ℕ
  pub some_round : 0 < rounds
  pub rest : List Others
  pub polling :
      c.polling
      ≡ replicate polls (λ u. u) ++ (delivered sizeof_entry (λ _. world) before rounds ∷ rest)
  pub code : ℕ
  pub ran : compress_service world arg before ≡ ok (code, out) after

-- An address that was unused is unused once the node of a request has come and gone.
still-unused :
    (p a : Ptr) (r : Request) (old mid new : Queue)
    → Enqueued p r [] old mid
    → Emptied p mid new
    → old.heap a ≡ none
    → new.heap a ≡ none
unfolding write insert
still-unused p a r old mid new came went unused = elim (Bool-cases (a == p)) [
  | inl same ↦ rw (went.heap, same) refl
  | inr other ↦ rw (went.heap, other) (came.others a (rw other refl) ∙ unused)
]

module _ {sizeof_entry : ℕ} {h : Heap Node} {s : Api} (c : Call) (arg : Arg) {out : Arg}
    {before after : Disk} (priority : ℕ) (allowed : priority ≤ 31) (idle : Idle sizeof_entry h s)
    (serves : Serves sizeof_entry h c arg out before after)
    (proper : s.global_request_id ≢ minus_one) where
  Serves-Ready : Ready sizeof_entry c arg compress priority s 0 []
  Serves-Ready = record {
    answers = serves.answers;
    finding = serves.finding;
    rounds = serves.some_answers;
    allowed = allowed;
    free = idle.free;
    queue = idle.queue;
    fresh = serves.fresh;
    unused = idle.unused c.fresh serves.unused;
    walk = serves.walk;
  }

  -- The entry as the server leaves it.
  abbrev answer : SharedEntry
  answer = record { used = true; done = true; arg = out }

  -- What the others make of the state in which the request is queued.
  served-Emptied :
      (t : Api)
      → t ≡ record (prepared sizeof_entry c arg compress priority s 0) { requests = t.requests }
      → Enqueued c.fresh (made sizeof_entry c arg compress priority s 0) [] s.requests t.requests
      → (q : Queue) × Emptied c.fresh t.requests q
        × (delivered sizeof_entry (λ _. serves.world) before serves.rounds t
            ≡ record t { requests = q; entries = set t.entries 0 answer })
  unfolding insert
  served-Emptied t same came =
      let shows =
        Shows-prepared sizeof_entry c arg compress priority s Serves-Ready t idle.open_lock same in
      delivered-done sizeof_entry (λ _. serves.world) before after t c.fresh
        (made sizeof_entry c arg compress priority s 0) came.queued (came.stop ∙ idle.runs)
        (taken arg) serves.code out serves.rounds serves.some_round shows.within shows.there proper
        refl serves.ran

  -- What the call leaves, from the state in which the request is queued.
  left-Idle :
      (t : Api)
      → t ≡ record (prepared sizeof_entry c arg compress priority s 0) { requests = t.requests }
      → Enqueued c.fresh (made sizeof_entry c arg compress priority s 0) [] s.requests t.requests
      → let u =
          taken_off (delivered sizeof_entry (λ _. serves.world) before serves.rounds t) 0 answer in
        Idle sizeof_entry h u
        × (u.global_request_id ≡ (s.global_request_id + 1) % 2 ^ 32)
        × (u.init ≡ s.init)
  unfolding new_shm_size
  left-Idle t same came =
      let (q, went, done) = served-Emptied t same came in
      let shows =
        Shows-prepared sizeof_entry c arg compress priority s Serves-Ready t idle.open_lock same in
      let served = get_elem?-set_self t.entries 0 answer shows.there in
      rw done (
        record {
          free = record {
            entry = record { used = false; done = false; arg = out };
            small = rw same idle.free.small;
            within = shows.within;
            there = get_elem?-set_self (set t.entries 0 answer) 0 _ served;
            unused = refl;
            busy = λ j lt. absurd (omega (arith, lt));
            calm = rw same idle.free.calm;
          };
          open_lock = shows.open_lock;
          queue = went.empty;
          runs = went.runs;
          unused = λ p none_there.
              still-unused c.fresh p (made sizeof_entry c arg compress priority s 0) s.requests
                t.requests q came went (idle.unused p none_there);
        },
        ap (λ x. x.global_request_id) same,
        ap (λ x. x.init) same,
      )

  -- A call whose request goes all the way returns 0 and what the service made of the argument, and
  -- leaves a library of which nothing is asked.
  pub tinyfile_sync-Idle :
      Returns
        (λ (code, given) t.
          (code ≡ 0)
          × (given ≡ some out)
          × Idle sizeof_entry h t
          × (t.global_request_id ≡ (s.global_request_id + 1) % 2 ^ 32)
          × (t.init ≡ s.init))
        (tinyfile_sync sizeof_entry c arg compress priority s)
  tinyfile_sync-Idle =
      Returns.weaken
        (λ (code, given) u (zero_code, right, (t, came, same, left)).
          let (again, number, still) = left-Idle t same came in
          (zero_code, right, rw left again, rw left number, rw left still))
        (tinyfile_sync-served sizeof_entry c arg compress priority s Serves-Ready serves.polls
          (delivered sizeof_entry (λ _. serves.world) before serves.rounds) serves.rest answer
          serves.polling idle.open_lock refl
          λ t same came.
            let (q, went, done) = served-Emptied t same came in
            let shows =
              Shows-prepared sizeof_entry c arg compress priority s Serves-Ready t idle.open_lock
                same in
            rw done (
              refl,
              record {
                open_lock = shows.open_lock;
                within = shows.within;
                there = get_elem?-set_self t.entries 0 answer shows.there;
              },
            ))
