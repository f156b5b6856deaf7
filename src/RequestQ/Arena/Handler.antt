-- ===== src/RequestQ/Arena/Handler.antt =====
-- The worker of the queue, and the queue's end, against the interface.
use tinyfile.Common.{
  ℕ, zero, suc, ◌≤◌, ◌≡◌, refl, true, false, none, List, [], ◌∷◌, arith, length, ap, ◌∙◌,
}
use tinyfile.Common.Run.{ok}
use tinyfile.Common.Returns
use tinyfile.Common.Returns.{Returns, returns}
use tinyfile.Common.Memory.{Ptr, write}
use tinyfile.Types.{Request}
use tinyfile.RequestQ.{Queue, handler}
use tinyfile.RequestQ.Chain.{Cells}
use tinyfile.RequestQ.Insert.{requests}
use tinyfile.RequestQ.Refine.{IsQueue, dequeue-cons, dequeue-nil}
use tinyfile.RequestQ.Shutdown.{quiet, handler_round, destroy-frees}
use tinyfile.RequestQ.Arena.{
  Arena, put_requests, on_requests, request_q_handler, async_req_q_destroy, Holds,
  put_requests-Returns,
}
use tinyfile.RequestQ.Arena.Enqueue.{length-requests}

write-unused :
    (q t : Queue) (p a : Ptr) → t.heap ≡ write q.heap p none → q.heap a ≡ none → t.heap a ≡ none
unfolding write
write-unused q t p a heap unused = ground (arith, heap)

-- The worker takes every request, and writes to no address that was unused.
record Drained (rs : List Request) (q : Queue) (sent : List Request) (t : Queue) : Type 0 where
  all : sent ≡ rs
  empty : IsQueue t []
  same : (p : Ptr) → q.heap p ≡ none → t.heap p ≡ none
  stop : t.stop_worker ≡ q.stop_worker

handler-Drained :
    (n : ℕ) (q : Queue) (cells : Cells)
    → IsQueue q cells
    → q.stop_worker ≡ false
    → length cells ≤ n
    → Returns (λ sent t. Drained (requests cells) q sent t) (handler (quiet n) q)
unfolding handler
handler-Drained zero q [] is run fuel =
    returns (record { all = refl; empty = is; same = λ p e. e; stop = refl })
handler-Drained zero q (x ∷ cells) is run fuel = absurd (omega arith)
handler-Drained (suc n) q [] is run fuel =
    rw (handler_round (quiet n) q run, dequeue-nil q is)
      (Returns.chain (handler-Drained n q [] is run (omega arith)) λ sent t d. returns d)
handler-Drained (suc n) q ((p, r) ∷ cells) is run fuel = rw (handler_round (quiet n) q run) (
    Returns.chain (dequeue-cons q p r cells is) λ got t (e, is', heap, stop).
      Returns.chain (handler-Drained n t cells is' (stop ∙ run) (omega arith)) λ sent u d. rw e (
        returns (record {
          all = ap (◌∷◌ r) d.all;
          empty = d.empty;
          same = λ a unused. d.same a (write-unused q t p a heap unused);
          stop = d.stop ∙ stop;
        })))

pub handler-Holds :
    (n : ℕ) (rs : List Request) (s : Arena)
    → Holds rs s
    → length rs ≤ n
    → Returns (λ sent t. (sent ≡ rs) × Holds [] t) (request_q_handler n s)
unfolding request_q_handler on_requests
handler-Holds n rs s h fuel =
    Returns.weaken
      (λ sent t (q, same, d). rw same (
        d.all ∙ h.content,
        record {
          cells = [];
          queued = d.empty;
          content = refl;
          count = omega (arith, h.count);
          unused = λ p le. d.same p (h.unused p le);
          runs = d.stop ∙ h.runs;
        },
      ))
      (put_requests-Returns s (
        handler-Drained n s.requests h.cells h.queued h.runs
          (omega (arith, fuel, length-requests h.cells, ap length h.content))))

-- A worker that is told to stop sends nothing.
handler-stopped : (n : ℕ) (q : Queue) → q.stop_worker ≡ true → handler (quiet n) q ≡ ok [] q
unfolding handler
handler-stopped zero q stop = refl
handler-stopped (suc n) q stop = simp stop

pub destroy_stops :
    (rs : List Request) (s : Arena)
    → Holds rs s
    → Returns (λ _ t. (n : ℕ) → request_q_handler n t ≡ ok [] t) (async_req_q_destroy s)
unfolding async_req_q_destroy request_q_handler on_requests put_requests
destroy_stops rs s h =
    Returns.weaken
      (λ _ t (q, same, (_, _, _, stop)). λ n. rw same (rw (handler-stopped n q stop) refl))
      (put_requests-Returns s (destroy-frees s.next s.requests h.cells h.queued h.count))
