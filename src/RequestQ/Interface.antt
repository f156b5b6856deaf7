-- ===== src/RequestQ/Interface.antt =====
-- The request queue as its users see it: operations, and laws in terms of a list of requests.
use tinyfile.Common.{ℕ, ◌≤◌, ◌≡◌, Option, none, some, List, [], ◌∷◌, leb, if◌then◌else◌, length}
use tinyfile.Common.Run.{ok, Cmd}
use tinyfile.Common.Returns.{Returns}
use tinyfile.Types.{Request}

-- A request goes behind those of no lower priority.
abbrev pub insert_request : Request → List Request → List Request
insert_request r [] = r ∷ []
insert_request r (q ∷ qs) =
    let rest = insert_request r qs in if leb r.priority q.priority then q ∷ rest else r ∷ q ∷ qs

abbrev pub first : List Request → Option Request
first [] = none
first (r ∷ rs) = some r

abbrev pub rest_of : List Request → List Request
rest_of [] = []
rest_of (r ∷ rs) = rs

pub record RequestQueue (S : Type 0) : Type 1 where
  -- The queue holds these requests, and its worker may run.
  pub Holds : List Request → S → Type 0
  pub request_q_enqueue : Request → Cmd S (Unit {0})
  pub request_q_dequeue : Cmd S (Option Request)
  -- The worker, for a number of rounds: what it sends.
  pub request_q_handler : ℕ → Cmd S (List Request)
  pub async_req_q_init : S
  pub async_req_q_destroy : Cmd S (Unit {0})
  pub init_holds : Holds [] async_req_q_init
  pub enqueue_holds :
      (r : Request) (rs : List Request) (s : S)
      → Holds rs s
      → Returns (λ _ t. Holds (insert_request r rs) t) (request_q_enqueue r s)
  pub dequeue_holds :
      (rs : List Request) (s : S)
      → Holds rs s
      → Returns (λ got t. (got ≡ first rs) × Holds (rest_of rs) t) (request_q_dequeue s)
  pub handler_holds :
      (n : ℕ) (rs : List Request) (s : S)
      → Holds rs s
      → length rs ≤ n
      → Returns (λ sent t. (sent ≡ rs) × Holds [] t) (request_q_handler n s)
  -- Once the queue is destroyed the worker sends nothing.
  pub destroy_stops :
      (rs : List Request) (s : S)
      → Holds rs s
      → Returns (λ _ t. (n : ℕ) → request_q_handler n t ≡ ok [] t) (async_req_q_destroy s)
