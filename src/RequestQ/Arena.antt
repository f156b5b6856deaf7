-- ===== src/RequestQ/Arena.antt =====
-- src/api/api.c: the request queue on a heap whose addresses are handed out in order and not used again.
pub mod Laws
mod Enqueue
mod Dequeue
mod Handler
use tinyfile.Common.{
  ℕ, zero, suc, ◌≤◌, ◌<◌, ◌≡◌, refl, true, false, Option, none, List, [], ◌∷◌, arith, leb, ◌==◌,
  length, Bool-cases, inl, inr, ap, ◌∙◌,
}
use tinyfile.Common.Run.{Run, ok, fault, blocked, out_of_fuel, Cmd}
use tinyfile.Common.Returns
use tinyfile.Common.Returns.{Returns, returns}
use tinyfile.Common.Memory.{Ptr, write}
use tinyfile.Types.{Request}
use tinyfile.RequestQ.{Queue, enqueue, dequeue, handler, init, destroy}
use tinyfile.RequestQ.Chain.{Cells, holds-unused}
use tinyfile.RequestQ.Insert.{insert, requests, holds-insert}
use tinyfile.RequestQ.Refine.{IsQueue, enqueue-insert, dequeue-cons, dequeue-nil}
use tinyfile.RequestQ.Shutdown.{quiet, handler_round, destroy-frees}
use tinyfile.RequestQ.Interface.{insert_request, first, rest_of, RequestQueue}

-- `next` is what `malloc` returns next. The loops are given as many rounds.
pub record Arena : Type 0 where
  pub requests : Queue
  pub next : Ptr

pub put_requests : {A : Type 0} → Arena → Run Queue A → Run Arena A
put_requests s (ok a q) = ok a (record s { requests = q })
put_requests s fault = fault
put_requests s blocked = blocked
put_requests s out_of_fuel = out_of_fuel

pub on_requests : {A : Type 0} → Cmd Queue A → Cmd Arena A
on_requests m s = put_requests s (m s.requests)

pub request_q_enqueue : Request → Cmd Arena (Unit {0})
request_q_enqueue r s = on_requests (enqueue s.next s.next r) (record s { next = suc s.next })

pub request_q_dequeue : Cmd Arena (Option Request)
request_q_dequeue = on_requests dequeue

pub request_q_handler : ℕ → Cmd Arena (List Request)
request_q_handler n = on_requests (handler (quiet n))

pub async_req_q_destroy : Cmd Arena (Unit {0})
async_req_q_destroy s = on_requests (destroy s.next) s

pub record Holds (rs : List Request) (s : Arena) : Type 0 where
  pub cells : Cells
  pub queued : IsQueue s.requests cells
  pub content : requests cells ≡ rs
  pub count : length cells < s.next
  pub unused : (p : Ptr) → s.next ≤ p → s.requests.heap p ≡ none
  pub runs : s.requests.stop_worker ≡ false

pub put_requests-Returns :
    {A : Type 0} {P : A → Queue → Type 0} {r : Run Queue A} (s : Arena)
    → Returns P r
    → Returns (λ a t. (q : Queue) × (t ≡ record s { requests = q }) × P a q) (put_requests s r)
unfolding put_requests
put_requests-Returns s (returns p) = returns (_, refl, p)
