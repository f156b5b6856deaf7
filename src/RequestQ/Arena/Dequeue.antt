-- ===== src/RequestQ/Arena/Dequeue.antt =====
-- `request_q_dequeue` against the interface of the queue.
use tinyfile.Common.{◌≤◌, ◌≡◌, refl, Option, none, List, [], ◌∷◌, arith, length, ap, ◌∙◌}
use tinyfile.Common.Returns
use tinyfile.Common.Returns.{Returns, returns}
use tinyfile.Common.Memory.{Ptr, write}
use tinyfile.Types.{Request}
use tinyfile.RequestQ.{Queue, dequeue}
use tinyfile.RequestQ.Chain.{Cells}
use tinyfile.RequestQ.Insert.{requests}
use tinyfile.RequestQ.Refine.{IsQueue, dequeue-cons, dequeue-nil}
use tinyfile.RequestQ.Interface.{first, rest_of}
use tinyfile.RequestQ.Arena.{Arena, on_requests, request_q_dequeue, Holds, put_requests-Returns}

-- `dequeue` takes the first cell, if there is one, and writes to no address that was unused.
record Taken (cells : Cells) (q : Queue) (got : Option Request) (t : Queue) : Type 0 where
  rest : Cells
  answer : got ≡ first (requests cells)
  queued : IsQueue t rest
  content : requests rest ≡ rest_of (requests cells)
  shorter : length rest ≤ length cells
  same : (p : Ptr) → q.heap p ≡ none → t.heap p ≡ none
  stop : t.stop_worker ≡ q.stop_worker

dequeue-Taken :
    (q : Queue) (cells : Cells)
    → IsQueue q cells
    → Returns (λ got t. Taken cells q got t) (dequeue q)
unfolding write
dequeue-Taken q [] is = rw (dequeue-nil q is) (
    returns (record {
      rest = [];
      answer = refl;
      queued = is;
      content = refl;
      shorter = omega arith;
      same = λ p e. e;
      stop = refl;
    }))
dequeue-Taken q ((p, r) ∷ cells) is =
    Returns.weaken
      (λ got t (answer, queued, heap, stop). record {
        rest = cells;
        answer = answer;
        queued = queued;
        content = refl;
        shorter = omega arith;
        same = λ a e. ground (arith, heap);
        stop = stop;
      })
      (dequeue-cons q p r cells is)

pub dequeue-Holds :
    (rs : List Request) (s : Arena)
    → Holds rs s
    → Returns (λ got t. (got ≡ first rs) × Holds (rest_of rs) t) (request_q_dequeue s)
unfolding request_q_dequeue on_requests
dequeue-Holds rs s h =
    Returns.weaken
      (λ got t (q, same, k). rw same (
        k.answer ∙ ap first h.content,
        record {
          cells = k.rest;
          queued = k.queued;
          content = k.content ∙ ap rest_of h.content;
          count = omega (arith, k.shorter, h.count);
          unused = λ p le. k.same p (h.unused p le);
          runs = k.stop ∙ h.runs;
        },
      ))
      (put_requests-Returns s (dequeue-Taken s.requests h.cells h.queued))
