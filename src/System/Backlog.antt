-- ===== src/System/Backlog.antt =====
-- Requests that `tinyfile_async` (src/api/api.c) has queued and that nobody has served yet, and what
-- becomes of them when the client's worker sends them all and the server's serves them.
use tinyfile.Common.{
  ℕ, suc, ◌+◌, ◌/◌, ◌%◌, ◌^◌, ◌<◌, ◌≤◌, ◌≡◌, ◌≢◌, refl, false, none, some, List, [], ◌∷◌, ◌++◌,
  arith, length, get_elem?, ap, ◌∙◌, ◌==◌, Bool-cases, inl, inr, get_elem?-set_self,
  get_elem?-set_ne,
}
use tinyfile.Common.Run.{Run}
use tinyfile.Common.Returns
use tinyfile.Common.Returns.{Returns, returns}
use tinyfile.Common.Memory.{Ptr, null, Heap}
use tinyfile.Types.{Arg, EntryIdx, Request, SharedEntry, compress, minus_one}
use tinyfile.RequestQ.{Node, Queue}
use tinyfile.RequestQ.Chain.{Cells, holds}
use tinyfile.RequestQ.Insert.{insert, requests, holds-insert}
use tinyfile.RequestQ.Level.{Level, insert-Level, Level-append}
use tinyfile.RequestQ.Refine.{IsQueue}
use tinyfile.RequestQ.Shutdown.{handler-quiet}
use tinyfile.Server.Compress.{World, Disk}
use tinyfile.Server.Worker.Batch.{Batch, TakenFrom, AnsweredFrom, Compresses, service_worker-all}
use tinyfile.Api.{Api}
use tinyfile.Api.Shm.{Answers}
use tinyfile.Api.Entries.{taken}
use tinyfile.Api.Entries.Find
use tinyfile.Api.Entries.Find.{IsBusy, FreeAt}
use tinyfile.Api.Requests.{Call, tinyfile_async}
use tinyfile.Api.Requests.Calls.{Ready, Enqueued, made, prepared, tinyfile_async-queued}
use tinyfile.System.{view}
use tinyfile.System.Transport.{put_sent, delivered}

-- The first `k` entries are in use, the others are free; the queue has the cells `xs`, all of priority 1,
-- and the next request has the number `k`. The addresses that are unused in `h` and not in `xs` are unused.
pub record Backlog (sizeof_entry : ℕ) (h : Heap Node) (k : ℕ) (xs : Cells) (s : Api) : Type 0 where
  pub queue : IsQueue s.requests xs
  pub level : Level 1 xs
  pub runs : s.requests.stop_worker ≡ false
  pub unused : (p : Ptr) → h p ≡ none → holds p xs ≡ false → s.requests.heap p ≡ none
  pub open_lock : s.shm_resize_lock ≡ false
  pub number : s.global_request_id ≡ k
  pub small : s.mapped / sizeof_entry < 2 ^ 31
  pub busy : (j : ℕ) → j < k → IsBusy s j
  pub free :
      (j : ℕ)
      → k ≤ j
      → j < s.mapped / sizeof_entry
      → (e : SharedEntry) × (get_elem? s.entries j ≡ some e) × (e.used ≡ false)

-- What the world gives to the call for the entry `k`: rounds to find it, an unused address, and room for
-- the walk along the queue.
pub record Asked (h : Heap Node) (k : ℕ) (xs : Cells) (c : Call) : Type 0 where
  pub answers : List Answers
  pub finding : c.finding ≡ Find.quiet answers
  pub rounds : k < length answers
  pub fresh : c.fresh ≢ null
  pub unused : h c.fresh ≡ none
  pub apart : holds c.fresh xs ≡ false
  pub walk : length xs < c.walk

-- The request of the call for the entry `k`.
abbrev pub request : Call → ℕ → Request
request c k = record (c.unset) {
  service = compress;
  pid = c.pid;
  priority = 1;
  request_id = k;
  entry_idx = k;
}

-- The state but for the entry `k`, which is taken for the argument.
pub record Added (k : ℕ) (arg : Arg) (s t : Api) : Type 0 where
  pub entry : get_elem? t.entries k ≡ some (taken arg)
  pub lower : (j : ℕ) → j < k → get_elem? t.entries j ≡ get_elem? s.entries j
  pub mapped : t.mapped ≡ s.mapped
  pub init : t.init ≡ s.init

module _ (size : ℕ) {h : Heap Node} {k : ℕ} {xs : Cells} {s : Api} (log : Backlog size h k xs s)
    (c : Call) (arg : Arg) (asked : Asked h k xs c) (room : k < s.mapped / size / 2)
    (few : k < minus_one) where
  Backlog-Ready : Ready size c arg compress 1 s k xs
  Backlog-Ready =
      let (entry, there, unused) = log.free k (omega arith) (omega (arith, room)) in
      record {
        answers = asked.answers;
        finding = asked.finding;
        rounds = asked.rounds;
        allowed = omega arith;
        free = record {
          entry = entry;
          small = log.small;
          within = omega (arith, room);
          there = there;
          unused = unused;
          busy = log.busy;
          calm = inl room;
        };
        queue = log.queue;
        fresh = asked.fresh;
        unused = log.unused c.fresh asked.unused asked.apart;
        walk = asked.walk;
      }

  cells_next :
      insert (c.fresh, made size c arg compress 1 s k) xs ≡ xs ++ ((c.fresh, request c k) ∷ [])
  cells_next =
      let named : made size c arg compress 1 s k ≡ request c k = rw log.number refl in
      insert-Level 1 (c.fresh, made size c arg compress 1 s k) xs refl log.level
      ∙ ap (λ r. xs ++ ((c.fresh, r) ∷ [])) named

  outside :
      (p : Ptr)
      → holds p (insert (c.fresh, made size c arg compress 1 s k) xs) ≡ false
      → holds p xs ≡ false
  outside p out = ground (arith, out, holds-insert p (c.fresh, made size c arg compress 1 s k) xs)

  here :
      (t : Api)
      → t ≡ record (prepared size c arg compress 1 s k) { requests = t.requests }
      → get_elem? t.entries k ≡ some (taken arg)
  here t same = rw same (get_elem?-set_self s.entries k (taken arg) Backlog-Ready.free.there)

  elsewhere :
      (t : Api)
      → t ≡ record (prepared size c arg compress 1 s k) { requests = t.requests }
      → (j : ℕ) → j ≢ k
      → get_elem? t.entries j ≡ get_elem? s.entries j
  elsewhere t same j other =
      rw same (get_elem?-set_ne s.entries k j (taken arg) (λ e. other (omega (arith, e))))

  Backlog-next :
      (t : Api)
      → Enqueued c.fresh (made size c arg compress 1 s k) xs s.requests t.requests
      → t ≡ record (prepared size c arg compress 1 s k) { requests = t.requests }
      → Backlog size h (suc k) (xs ++ ((c.fresh, request c k) ∷ [])) t
  Backlog-next t came same = record {
    queue = rw (← cells_next) came.queued;
    level = Level-append 1 (c.fresh, request c k) xs refl log.level;
    runs = came.stop ∙ log.runs;
    unused = λ p none_there out.
        let out' : holds p (insert (c.fresh, made size c arg compress 1 s k) xs) ≡ false =
          rw cells_next out in
        came.others p out' ∙ log.unused p none_there (outside p out');
    open_lock = rw same log.open_lock;
    number =
        (let next : t.global_request_id ≡ (s.global_request_id + 1) % 2 ^ 32 =
            ap (λ u. u.global_request_id) same in
          omega (arith, next, log.number, few));
    small = rw same log.small;
    busy = λ j lt. elim (Bool-cases (j == k)) [
      | inl last ↦ let at : j ≡ k = ground arith in (taken arg, rw at (here t same), refl)
      | inr other ↦
          let (e, there, used) = log.busy j (ground arith) in
          (e, elsewhere t same j (ground arith) ∙ there, used)
    ];
    free = λ j le lt.
        let (e, there, unused) = log.free j (omega (arith, le)) (rw same at lt) in
        (e, elsewhere t same j (omega (arith, le)) ∙ there, unused);
  }

  -- A call takes the next entry and puts its request behind the others.
  pub tinyfile_async-Backlog :
      Returns
        (λ (code, out) t.
          (out ≡ some k)
          × Backlog size h (suc k) (xs ++ ((c.fresh, request c k) ∷ [])) t
          × Added k arg s t)
        (tinyfile_async size c arg compress 1 s)
  tinyfile_async-Backlog =
      Returns.weaken
        (λ (code, out) t (zero_code, right, came, same). (
          right,
          Backlog-next t came same,
          record {
            entry = here t same;
            lower = λ j lt. elsewhere t same j (omega (arith, lt));
            mapped = ap (λ u. u.mapped) same;
            init = ap (λ u. u.init) same;
          },
        ))
        (tinyfile_async-queued size c arg compress 1 s Backlog-Ready)

-- The whole backlog is sent and served.
pub delivered-all :
    (size : ℕ) (w : EntryIdx → World) (before after : Disk) (rounds : ℕ) (xs : Cells)
    (args outs : List Arg) (s : Api)
    → IsQueue s.requests xs
    → s.requests.stop_worker ≡ false
    → length xs ≤ rounds
    → length (requests xs) ≡ length args
    → length args ≤ s.mapped / size
    → Batch 0 (requests xs)
    → TakenFrom s.entries 0 args
    → Compresses w 0 args outs before after
    → (q : Queue) × (es : List SharedEntry) × IsQueue q []
      × (delivered size w before rounds s ≡ record s { requests = q; entries = es })
      × AnsweredFrom es 0 outs
unfolding delivered
delivered-all size w before after rounds xs args outs s queue runs fuel same within batch waiting
      makes =
    relayed (handler-quiet rounds s.requests xs queue runs fuel)
  where
    relayed :
        {r : Run Queue (List Request)}
        → Returns (λ sent q. (sent ≡ requests xs) × IsQueue q []) r
        → (q : Queue) × (es : List SharedEntry) × IsQueue q []
          × (put_sent size w before s r ≡ record s { requests = q; entries = es })
          × AnsweredFrom es 0 outs
    relayed (returns {s = q} (all, empty)) =
        let (t, ran, served) =
          service_worker-all size w 0 (requests xs) args outs after
            (view (record s { requests = q }) before) refl same (omega (arith, within)) batch
            waiting makes in
        (q, t.entries, empty, rw (all, ran) refl, served.answered)
