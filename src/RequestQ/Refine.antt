-- ===== src/RequestQ/Refine.antt =====
-- `request_q_enqueue` and `request_q_dequeue` on the heap, against the list of requests.
use tinyfile.Common.{
  ℕ, ◌<◌, ◌≡◌, refl, ◌≢◌, true, false, none, some, List, [], ◌∷◌, ◌++◌, arith, ◌==◌, length,
}
use tinyfile.Common.Run.{ok}
use tinyfile.Common.Returns
use tinyfile.Common.Returns.{Returns, returns}
use tinyfile.Types.{Request}
use tinyfile.Common.Memory.{Ptr, null, write}
use tinyfile.RequestQ.{node, Queue, lock, unlock, store, seek, link, enqueue, dequeue}
use tinyfile.RequestQ.Chain.{
  Cells, front, Chain, SameBut, Chain-write, load-ok, free-ok, holds-unused,
}
use tinyfile.RequestQ.Insert.{
  insert, requests, holds-insert, IsSorted, of_priority, insert-IsSorted, of_priority-insert,
}
use tinyfile.RequestQ.Place.{seek-link-Queued}

-- The queue holds these cells, and nobody has its mutex.
pub record IsQueue (s : Queue) (xs : Cells) : Type 0 where
  pub chain : Chain s.heap xs
  pub head : s.queue ≡ front null xs
  pub free_mutex : s.mutex ≡ false

-- The state between `lock` and `unlock`, with the new node written.
abbrev opened : Queue → Ptr → Request → Cells → Queue
opened s entry r xs = record s {
  heap = write s.heap entry (some (node r null));
  queue = front null xs;
  mutex = true;
}

-- `request_q_enqueue`, given an unused address and enough rounds, returns: it puts the request
-- behind those of no lower priority and before the others, gives the mutex back, and leaves
-- every other address and the worker's flag alone.
pub enqueue-insert :
    (rounds : ℕ) (entry : Ptr) (r : Request) (s : Queue) (xs : Cells)
    → IsQueue s xs
    → entry ≢ null
    → s.heap entry ≡ none
    → length xs < rounds
    → Returns
        (λ _ t.
          IsQueue t (insert (entry, r) xs)
          × SameBut (insert (entry, r) xs) s.heap t.heap
          × (t.stop_worker ≡ s.stop_worker))
        (enqueue rounds entry r s)
unfolding enqueue lock unlock store write
enqueue-insert rounds entry r s xs is nz unused fuel =
    let got : (entry == null) ≡ false = ground arith in
    let out = holds-unused s.heap entry xs is.chain unused in
    rw (got, is.free_mutex, is.head)
      (Returns.chain_two (seek rounds r.priority null (front null xs) (opened s entry r xs))
        (link entry)
        (seek-link-Queued entry r nz rounds (opened s entry r xs) xs (ground arith)
          (Chain-write s.heap xs entry (some (node r null)) is.chain out) refl out fuel)
        λ _ t q. returns (
          record { chain = q.chain; head = q.head; free_mutex = refl },
          λ a o. ground (arith, q.same a, holds-insert a (entry, r) xs),
          q.stop,
        ))

-- The queue holds these requests, in this order.
pub record HoldsRequests (s : Queue) (rs : List Request) : Type 0 where
  pub cells : Cells
  pub queued : IsQueue s cells
  pub content : requests cells ≡ rs

-- For the queue's user: given an unused address and enough rounds, `request_q_enqueue` keeps requests
-- that are sorted by falling priority sorted, and for each priority leaves the requests of that
-- priority in their order, with the new one, if it is of that priority, behind them.
pub enqueue-IsSorted :
    (rounds : ℕ) (entry : Ptr) (r : Request) (s : Queue) (xs : Cells)
    → IsQueue s xs
    → IsSorted (requests xs)
    → entry ≢ null
    → s.heap entry ≡ none
    → length xs < rounds
    → Returns
        (λ _ t.
          (rs : List Request) × HoldsRequests t rs
          × IsSorted rs
          × ((p : ℕ) → of_priority p rs ≡ of_priority p (requests xs) ++ of_priority p (r ∷ [])))
        (enqueue rounds entry r s)
enqueue-IsSorted rounds entry r s xs is sorted nz unused fuel =
    Returns.weaken
      (λ _ t q. (
        requests (insert (entry, r) xs),
        record { cells = insert (entry, r) xs; queued = q.0; content = refl },
        insert-IsSorted (entry, r) xs sorted,
        λ p. of_priority-insert p (entry, r) xs sorted,
      ))
      (enqueue-insert rounds entry r s xs is nz unused fuel)

-- `request_q_dequeue` of a queue that is not empty, and whose mutex is free, returns the first request:
-- it takes it off and frees its node, gives the mutex back, and writes nowhere else on the heap.
pub dequeue-cons :
    (s : Queue) (p : Ptr) (r : Request) (xs : Cells)
    → IsQueue s ((p, r) ∷ xs)
    → Returns
        (λ got t.
          (got ≡ some r)
          × IsQueue t xs
          × (t.heap ≡ write s.heap p none)
          × (t.stop_worker ≡ s.stop_worker))
        (dequeue s)
unfolding dequeue lock unlock
dequeue-cons s p r xs is =
    let (nz, at, out, rest) = is.chain in
    let got : (p == null) ≡ false = ground arith in
    rw
      (
        is.free_mutex,
        is.head,
        got,
        load-ok (record s { queue = p; mutex = true }) nz at,
        free-ok (record s { queue = front null xs; mutex = false }) nz at,
      )
      (returns (
        refl,
        record { chain = Chain-write s.heap xs p none rest out; head = refl; free_mutex = refl },
        refl,
        refl,
      ))

pub dequeue-nil : (s : Queue) → IsQueue s [] → dequeue s ≡ ok none s
unfolding dequeue lock unlock
dequeue-nil s is = ground arith
