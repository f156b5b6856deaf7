-- ===== src/RequestQ/History.antt =====
-- The request queue of src/api/api.c over a whole run: any sequence of its operations, against the
-- same sequence on a list.
use tinyfile.Common.{ℕ, ◌≤◌, ◌≡◌, refl, Option, List, [], ◌∷◌, length}
use tinyfile.Common.Run.{Cmd, pure, ◌>>=◌, ◌>>◌}
use tinyfile.Common.Returns
use tinyfile.Common.Returns.{Returns, returns}
use tinyfile.Types.{Request}
use tinyfile.RequestQ.Interface.{insert_request, first, rest_of, RequestQueue}
use tinyfile.RequestQ.Arena.Laws.{request_q}

-- What is asked of a queue: to take in a request, or to give one.
pub data QueueOp : Type 0 where
  put : Request → QueueOp
  take : QueueOp

-- What the `take`s of a sequence answer, in order.
abbrev pub run_ops : {S : Type 0} → RequestQueue S → List QueueOp → Cmd S (List (Option Request))
run_ops queue [] = pure []
run_ops queue (put r ∷ ops) = do queue.request_q_enqueue r; run_ops queue ops
run_ops queue (take ∷ ops) = do
  got ← queue.request_q_dequeue
  rest ← run_ops queue ops
  pure (got ∷ rest)

-- The same on a list: the answers, and the requests that are left.
abbrev pub on_list : List QueueOp → List Request → List (Option Request) × List Request
on_list [] rs = ([], rs)
on_list (put r ∷ ops) rs = on_list ops (insert_request r rs)
on_list (take ∷ ops) rs = let rest = on_list ops (rest_of rs) in (first rs ∷ rest.0, rest.1)

run_ops-on_list :
    {S : Type 0} (queue : RequestQueue S) (ops : List QueueOp) (rs : List Request) (s : S)
    → queue.Holds rs s
    → Returns
        (λ got t. (got ≡ (on_list ops rs).0) × queue.Holds (on_list ops rs).1 t)
        (run_ops queue ops s)
run_ops-on_list queue [] rs s h = returns (refl, h)
run_ops-on_list queue (put r ∷ ops) rs s h =
    Returns.chain (queue.enqueue_holds r rs s h)
      λ _ t k. run_ops-on_list queue ops (insert_request r rs) t k
run_ops-on_list queue (take ∷ ops) rs s h =
    Returns.chain (queue.dequeue_holds rs s h) λ got t (answer, k).
      Returns.chain (run_ops-on_list queue ops (rest_of rs) t k)
        λ rest u (answers, left). returns (rw (answer, answers) refl, left)

-- The request queue of the library, from its initialisation, answers any sequence of
-- `request_q_enqueue` and `request_q_dequeue` as a list that is kept by priority does: it gives no
-- fault and does not block, each `dequeue` returns what the list's first element is (nothing for
-- an empty list), and once all is done its worker sends the requests that the list still holds, in
-- order, if it is given a round for each.
pub request_q-on_list :
    (ops : List QueueOp) (n : ℕ)
    → length (on_list ops []).1 ≤ n
    → Returns
        (λ got t.
          (got ≡ (on_list ops []).0)
          × Returns (λ sent _. sent ≡ (on_list ops []).1) (request_q.request_q_handler n t))
        (run_ops request_q ops request_q.async_req_q_init)
request_q-on_list ops n fuel =
    Returns.weaken
      (λ got t (answers, left).
        (answers, Returns.weaken (λ sent u k. k.0) (request_q.handler_holds n _ t left fuel)))
      (run_ops-on_list request_q ops [] request_q.async_req_q_init request_q.init_holds)
