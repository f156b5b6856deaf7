-- ===== src/Library/Backlog.antt =====
-- src/api/api.c behind its interface, while a program submits requests and waits for them afterwards.
use tinyfile.Common.{
  ℕ, suc, ◌+◌, ◌/◌, ◌<◌, ◌≤◌, ◌≡◌, refl, true, false, some, List, [], ◌∷◌, ◌++◌, arith, length,
  replicate, ap, ◌∙◌,
}
use native.Mathlib.Nat.{div-le_self}
use tinyfile.Common.Returns
use tinyfile.Common.Returns.{Returns, returns}
use tinyfile.Common.Memory.{Heap}
use tinyfile.Types.{Arg, EntryIdx, CString, compress, minus_one}
use tinyfile.RequestQ.{Node}
use tinyfile.RequestQ.Chain.{Cells}
use tinyfile.RequestQ.Insert.{requests}
use tinyfile.RequestQ.Refine.{IsQueue}
use tinyfile.Server.Compress.{World, Disk}
use tinyfile.Server.Worker.Batch.{Batch, TakenFrom, AnsweredFrom, Compresses, AnsweredFrom-set}
use tinyfile.Api.{Api, Others}
use tinyfile.Api.Shm.Resized.{mapped-div}
use tinyfile.Api.Entries.Poll.{Shows, recv_response-first}
use tinyfile.Api.Entries.Waits.{recv_response-at_once}
use tinyfile.Api.Requests.{Call}
use tinyfile.Api.Requests.Wait.{tinyfile_async_wait-recv_response}
use tinyfile.Api.Session.{Session}
use tinyfile.Api.Session.Opened.{IsOpen, Opened, Started}
use tinyfile.System.Backlog.{Backlog, Asked, Added, request, tinyfile_async-Backlog, delivered-all}
use tinyfile.System.Transport.{delivered}
use tinyfile.Library.{Running, library, next_call, take_call, next_wait, take_wait}
use tinyfile.Library.Runs.{SameWorld, api-Returns, IsOpen-api}

-- The session is open beside the queues `qs` and the objects `ms`, and its requests wait; the next calls
-- are given `calls`, and the next waits `waits`.
pub record Pending (size : ℕ) (h : Heap Node) (qs ms : List CString) (k : ℕ) (xs : Cells)
    (calls : List Call) (waits : List (List Others)) (r : Running) : Type 0 where
  pub is_open : IsOpen qs ms r.session
  pub backlog : Backlog size h k xs r.session.api
  pub given : r.calls ≡ calls
  pub later : r.waits ≡ waits

-- The answers from the entry `i` on are there, nothing is queued, and no call is left.
pub record Answered (size : ℕ) (qs ms : List CString) (i : ℕ) (outs : List Arg)
    (waits : List (List Others)) (r : Running) : Type 0 where
  pub is_open : IsOpen qs ms r.session
  pub queue : IsQueue r.session.api.requests []
  pub open_lock : r.session.api.shm_resize_lock ≡ false
  pub within : i + length outs ≤ r.session.api.mapped / size
  pub answers : AnsweredFrom r.session.api.entries i outs
  pub spent : r.calls ≡ []
  pub later : r.waits ≡ waits

module _ (size : ℕ) {h : Heap Node} {qs ms : List CString} (r : Running) where
  -- A call of `tinyfile_async`.
  pub async-Pending :
      {k : ℕ} {xs : Cells} {calls : List Call} {waits : List (List Others)} (c : Call) (arg : Arg)
      → Pending size h qs ms k xs (c ∷ calls) waits r
      → Asked h k xs c
      → k < r.session.api.mapped / size / 2
      → k < minus_one
      → Returns
          (λ (code, key) t.
            (key ≡ some k)
            × Pending size h qs ms (suc k) (xs ++ ((c.fresh, request c k) ∷ [])) calls waits t
            × Added k arg r.session.api t.session.api
            × SameWorld r t)
          ((library size).tinyfile_async arg compress 1 r)
  unfolding library next_call take_call
  async-Pending {k} {xs} {calls} c arg pending asked room few = rw pending.given (
      Returns.weaken
        (λ (code, key) t (u, same, (right, backlog, added)). rw same (
          right,
          record {
            is_open = IsOpen-api r.session u pending.is_open added.init;
            backlog = backlog;
            given = refl;
            later = pending.later;
          },
          added,
          record { exit_rounds = refl; sends = refl; unlinks = refl },
        ))
        (api-Returns (record r { calls = calls })
          (tinyfile_async-Backlog size pending.backlog c arg asked room few)))

  -- The wait in which, after some polls, the whole backlog is sent and served.
  pub wait-first :
      {k : ℕ} {xs : Cells} {waits : List (List Others)} (a : Arg) (args : List Arg) (o : Arg)
      (outs : List Arg) (w : EntryIdx → World) (before after : Disk) (polls rounds : ℕ)
      (rest : List Others)
      → Pending size h qs ms k xs []
          ((replicate polls (λ u. u) ++ (delivered size w before rounds ∷ rest)) ∷ waits)
          r
      → length xs ≤ rounds
      → length (requests xs) ≡ length (a ∷ args)
      → length outs ≡ length args
      → length (a ∷ args) ≤ r.session.api.mapped / size
      → Batch 0 (requests xs)
      → TakenFrom r.session.api.entries 0 (a ∷ args)
      → Compresses w 0 (a ∷ args) (o ∷ outs) before after
      → Returns
          (λ (code, out) t. (out ≡ o) × Answered size qs ms 1 outs waits t × SameWorld r t)
          ((library size).tinyfile_async_wait 0 r)
  unfolding library next_wait take_wait
  wait-first {k} {xs} {waits} a args o outs w before after polls rounds rest pending fuel same
        answers room batch waiting makes =
      let s : Api = r.session.api in
      let (q, es, empty, gone, answered) =
        delivered-all size w before after rounds xs (a ∷ args) (o ∷ outs) s pending.backlog.queue
          pending.backlog.runs fuel same room batch waiting makes in
      let now : Shows size 0 (record { used = true; done = false; arg = a }) s = record {
        open_lock = pending.backlog.open_lock;
        within = omega (arith, room);
        there = waiting.0;
      } in
      let later : Shows size 0 (record { used = true; done = true; arg = o })
          (delivered size w before rounds s) =
        rw gone (record {
          open_lock = pending.backlog.open_lock;
          within = omega (arith, room);
          there = answered.0;
        }) in
      let polled = tinyfile_async_wait-recv_response size 0 _ s _ o _ (
        recv_response-first size 0 polls (delivered size w before rounds) rest s _
          (record { used = true; done = true; arg = o }) now refl (rw gone refl) later refl) in
      rw pending.later (
        Returns.chain (api-Returns (record r { waits = waits }) polled)
          λ out t (u, same, (right, left)). returns (
            right,
            rw same (
                rw (left, gone)
                  (record {
                    is_open = IsOpen-api r.session _ pending.is_open refl;
                    queue = empty;
                    open_lock = pending.backlog.open_lock;
                    within = omega (arith, room, answers);
                    answers = AnsweredFrom-set es 1 0 _ outs (omega arith) answered.1;
                    spent = pending.given;
                    later = refl;
                  })),
            rw same (record { exit_rounds = refl; sends = refl; unlinks = refl }),
          ))

module _ (size : ℕ) {qs ms : List CString} (r : Running) where
  -- A wait for an answer that is there.
  pub wait-next :
      {i : ℕ} {o : Arg} {outs : List Arg} {waits : List (List Others)} (rest : List Others)
      → Answered size qs ms i (o ∷ outs) (((λ u. u) ∷ rest) ∷ waits) r
      → Returns
          (λ (code, out) t. (out ≡ o) × Answered size qs ms (suc i) outs waits t × SameWorld r t)
          ((library size).tinyfile_async_wait i r)
  unfolding library next_wait take_wait
  wait-next {i} {o} {outs} {waits} rest there =
      let shows : Shows size i (record { used = true; done = true; arg = o }) r.session.api =
        record {
          open_lock = there.open_lock;
          within = omega (arith, there.within);
          there = there.answers.0;
        } in
      let polled =
        tinyfile_async_wait-recv_response size i _ r.session.api _ o []
          (recv_response-at_once size i rest r.session.api _ shows refl) in
      rw there.later (
        Returns.chain (api-Returns (record r { waits = waits }) polled)
          λ out t (u, same, (right, left)). returns (
            right,
            rw same (
                rw left (record {
                  is_open = IsOpen-api r.session _ there.is_open refl;
                  queue = there.queue;
                  open_lock = there.open_lock;
                  within = omega (arith, there.within);
                  answers =
                      AnsweredFrom-set r.session.api.entries (suc i) i _ outs (omega arith)
                        there.answers.1;
                  spent = there.spent;
                  later = refl;
                })),
            rw same (record { exit_rounds = refl; sends = refl; unlinks = refl }),
          ))

-- A library that was opened.
pub Opened-Pending :
    (size : ℕ) (r t : Running) (code : ℕ) (u : Session)
    → 0 < size
    → t ≡ record r { session = u }
    → Opened size r.opening.pid r.session code u
    → Started size r.opening r.heap r.session u
    → Pending size r.heap r.session.queues r.session.shms 0 [] r.calls r.waits t
      × (t.session.api.mapped / size ≡ r.session.api.shm_size / size)
Opened-Pending size r t code u pos same opened started =
    let whole : u.api.mapped / size ≡ length u.api.entries =
      mapped-div size pos u.api opened.mapping in
    rw same (
      record {
        is_open = opened.is_open;
        backlog = record {
          queue = opened.empty;
          level = tt;
          runs = started.runs;
          unused = λ p none_there out. ap (λ heap. heap p) started.heap_kept ∙ none_there;
          open_lock = opened.mapping.open_lock;
          number = started.number;
          small = omega (arith, div-le_self u.api.mapped size, opened.mapping.small);
          busy = λ j lt. absurd (omega (arith, lt));
          free = λ j le lt. opened.unused j (omega (arith, lt, whole));
        };
        given = refl;
        later = refl;
      },
      whole ∙ opened.count,
    )
