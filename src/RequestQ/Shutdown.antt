-- ===== src/RequestQ/Shutdown.antt =====
-- `request_q_handler`, which drains the queue, and `async_req_q_destroy`, which frees it.
use tinyfile.Common.{
  ℕ, zero, suc, ◌<◌, ◌≤◌, ◌≡◌, refl, ◌≢◌, true, false, none, some, List, [], ◌∷◌, arith, ◌==◌,
  length, replicate, ◌∙◌, ap,
}
use tinyfile.Common.Run.{ok, fault, then_run, pure, ◌>>=◌}
use tinyfile.Common.Returns
use tinyfile.Common.Returns.{Returns, returns}
use tinyfile.Types.{Request}
use tinyfile.Common.Memory.{Ptr, null, write}
use tinyfile.RequestQ.{
  Queue, lock, unlock, load, dequeue, Others, handler, free_all, free_queue, destroy,
}
use tinyfile.RequestQ.Chain.{Cells, holds, front, Chain, SameBut, Chain-write, load-ok, free-ok}
use tinyfile.RequestQ.Insert.{requests}
use tinyfile.RequestQ.Refine.{IsQueue, dequeue-cons, dequeue-nil}

-- No other thread touches the queue for `n` rounds.
abbrev pub quiet : ℕ → List Others
quiet n = replicate n (λ s. s)

pub handler_round :
    (rest : List Others) (s : Queue)
    → s.stop_worker ≡ false
    → handler ((λ t. t) ∷ rest) s
      ≡ then_run
          (dequeue s)
          (λ next. handler rest >>= λ sent. pure (elim next [ none ↦ sent | some r ↦ r ∷ sent ]))
unfolding handler
handler_round rest s run = simp run

-- The worker, while no other thread touches the queue and it is not told to stop, hands every
-- request to `mq_send`, in the order of the queue, and leaves the queue empty and its mutex free.
pub handler-quiet :
    (n : ℕ) (s : Queue) (xs : Cells)
    → IsQueue s xs
    → s.stop_worker ≡ false
    → length xs ≤ n
    → Returns (λ sent t. (sent ≡ requests xs) × IsQueue t []) (handler (quiet n) s)
unfolding handler
handler-quiet zero s [] is run fuel = returns (refl, is)
handler-quiet zero s (x ∷ xs) is run fuel = absurd (omega arith)
handler-quiet (suc n) s [] is run fuel =
    rw (handler_round (quiet n) s run, dequeue-nil s is)
      (Returns.chain (handler-quiet n s [] is run (omega arith)) λ sent t h. returns h)
handler-quiet (suc n) s ((p, r) ∷ xs) is run fuel = rw (handler_round (quiet n) s run) (
    Returns.chain (dequeue-cons s p r xs is) λ got t (e, is', _, stop).
      Returns.chain (handler-quiet n t xs is' (stop ∙ run) (omega arith))
        λ sent u (all, left). rw e (returns (ap (◌∷◌ r) all, left)))

handler-nil :
    (n : ℕ) (s : Queue) → IsQueue s [] → s.stop_worker ≡ false → handler (quiet n) s ≡ ok [] s
unfolding handler
handler-nil zero s is run = refl
handler-nil (suc n) s is run =
    rw (handler_round (quiet n) s run, dequeue-nil s is, handler-nil n s is run) refl

-- The worker sends the one request that is queued, and frees its node.
pub handler-one :
    (n : ℕ) (s : Queue) (p : Ptr) (r : Request)
    → IsQueue s ((p, r) ∷ [])
    → s.stop_worker ≡ false
    → 0 < n
    → Returns
        (λ sent t.
          (sent ≡ r ∷ []) × IsQueue t [] × (t.heap ≡ write s.heap p none) × (t.stop_worker ≡ false))
        (handler (quiet n) s)
handler-one zero s p r is run fuel = absurd (omega arith)
handler-one (suc n) s p r is run fuel = rw (handler_round (quiet n) s run) (
    Returns.chain (dequeue-cons s p r [] is) λ got t (e, empty, heap, stop).
      rw (handler-nil n t empty (stop ∙ run), e) (returns (refl, empty, heap, stop ∙ run)))

-- The nodes of `xs` are freed, and nothing else has changed.
record Freed (xs : Cells) (s t : Queue) : Type 0 where
  pub gone : (a : Ptr) → holds a xs ≡ true → t.heap a ≡ none
  pub same : SameBut xs s.heap t.heap
  pub queue : t.queue ≡ s.queue
  pub mutex : t.mutex ≡ s.mutex
  pub stop : t.stop_worker ≡ s.stop_worker

Freed-cons :
    (p : Ptr) (r : Request) (xs : Cells) (s t : Queue)
    → holds p xs ≡ false
    → Freed xs (record s { heap = write s.heap p none }) t
    → Freed ((p, r) ∷ xs) s t
unfolding write
Freed-cons p r xs s t out f = record {
  gone = λ a i. ground (arith, f.gone a, f.same a);
  same = λ a o. ground (arith, f.same a);
  queue = f.queue;
  mutex = f.mutex;
  stop = f.stop;
}

free_all-Freed :
    (k : ℕ) (s : Queue) (xs : Cells)
    → Chain s.heap xs
    → length xs < k
    → Returns (λ _ t. Freed xs s t) (free_all k (front null xs) s)
unfolding free_all
free_all-Freed zero s xs c fuel = absurd (omega arith)
free_all-Freed (suc k) s [] c fuel =
    returns
      (record { gone = λ a i. cc; same = λ a o. refl; queue = refl; mutex = refl; stop = refl })
free_all-Freed (suc k) s ((p, r) ∷ xs) (nz, at, out, rest) fuel =
    let got : (p == null) ≡ false = ground arith in
    rw (got, load-ok s nz at, free-ok s nz at)
      (Returns.weaken (λ _ t. Freed-cons p r xs s t out)
        (free_all-Freed k (record s { heap = write s.heap p none }) xs
          (Chain-write s.heap xs p none rest out) (omega arith)))

free_queue-Freed :
    (k : ℕ) (s : Queue) (xs : Cells)
    → IsQueue s xs
    → length xs < k
    → Returns (λ _ t. Freed xs s t) (free_queue k s)
unfolding free_queue lock unlock
free_queue-Freed k s xs is fuel =
    rw (is.free_mutex, is.head)
      (Returns.chain
        (free_all-Freed k (record s { queue = front null xs; mutex = true }) xs is.chain fuel)
        λ _ t f. returns (record {
          gone = f.gone;
          same = f.same;
          queue = ground (arith, f.queue, is.head);
          mutex = ground (arith, is.free_mutex);
          stop = f.stop;
        }))

-- `async_req_q_destroy`, given enough rounds and a mutex that is free, returns: it frees every node of the queue, writes to no other address,
-- gives the mutex back and tells the worker to stop.
pub destroy-frees :
    (k : ℕ) (s : Queue) (xs : Cells)
    → IsQueue s xs
    → length xs < k
    → Returns
        (λ _ t.
          ((a : Ptr) → holds a xs ≡ true → t.heap a ≡ none)
          × SameBut xs s.heap t.heap
          × (t.mutex ≡ false)
          × (t.stop_worker ≡ true))
        (destroy k s)
unfolding destroy
destroy-frees k s xs is fuel =
    Returns.chain (free_queue-Freed k s xs is fuel)
      λ _ t f. returns (f.gone, f.same, f.mutex ∙ is.free_mutex, refl)

dequeue-freed :
    (p : Ptr) (t : Queue)
    → t.mutex ≡ false
    → t.queue ≡ p
    → p ≢ null
    → t.heap p ≡ none
    → dequeue t ≡ fault
unfolding dequeue lock load
dequeue-freed p t open_mutex head nz gone =
    let got : (p == null) ≡ false = ground arith in rw (open_mutex, head, got, gone, got)

-- Between the two halves of `async_req_q_destroy` the worker still runs. If the queue was not empty
-- and the worker looks into it then, it reads a freed node.
pub free_queue-dequeue :
    (k : ℕ) (s : Queue) (p : Ptr) (r : Request) (xs : Cells)
    → IsQueue s ((p, r) ∷ xs)
    → suc (length xs) < k
    → then_run (free_queue k s) (λ _. dequeue) ≡ fault
free_queue-dequeue k s p r xs is fuel =
    Returns.chain_eq (λ _. dequeue) fault (free_queue-Freed k s ((p, r) ∷ xs) is fuel)
      λ _ t f.
        dequeue-freed p t (f.mutex ∙ is.free_mutex) (f.queue ∙ is.head) is.chain.0
          (f.gone p (ground arith))
