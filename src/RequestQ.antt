-- ===== src/RequestQ.antt =====
-- src/api/api.c: the client's request queue (`request_q_params`), a linked list on the heap that is
-- kept by priority. Each loop is given a number of rounds; its length and one more are enough.
pub mod Level
pub mod Arena
pub mod Chain
pub mod History
pub mod Insert
pub mod Interface
pub mod Place
pub mod Refine
pub mod Shutdown
pub mod Tests
use tinyfile.Common.{
  ℕ, zero, suc, Bool, true, false, Option, none, some, List, [], ◌∷◌, leb, ◌==◌, if◌then◌else◌,
}
use tinyfile.Common.Run.{
  ok, fault, blocked, out_of_fuel, Cmd, pure, ◌>>=◌, ◌>>◌, gets, modify, need,
}
use tinyfile.Common.Memory.{Ptr, null, Heap, write}
use tinyfile.Types.{Request}

-- `request_q`
pub record Node : Type 0 where
  pub request : Request
  pub next : Ptr

abbrev pub node : Request → Ptr → Node
node r p = record { request = r; next = p }

-- `request_q_params`, without the worker's thread and the condition variable, which nothing waits
-- on, and with the heap that its nodes lie on.
pub record Queue : Type 0 where
  pub heap : Heap Node
  pub queue : Ptr
  pub mutex : Bool
  pub stop_worker : Bool

pub lock : Cmd Queue (Unit {0})
lock s = if s.mutex then blocked else ok tt (record s { mutex = true })

pub unlock : Cmd Queue (Unit {0})
unlock s = ok tt (record s { mutex = false })

pub store : Ptr → Option Node → Cmd Queue (Unit {0})
store p c s = ok tt (record s { heap = write s.heap p c })

-- `*p`
pub load : Ptr → Cmd Queue Node
load p s = if p == null then fault else need (s.heap p) s

-- `p->next = q`
pub set_next : Ptr → Ptr → Cmd Queue (Unit {0})
set_next p q = do n ← load p; store p (some (record n { next = q }))

pub free : Ptr → Cmd Queue (Unit {0})
free p = load p >> store p none

-- The walk past the requests of no lower priority, to the places `prev` and `curr`.
pub seek : ℕ → ℕ → (prev curr : Ptr) → Cmd Queue (Ptr × Ptr)
seek zero priority prev curr = λ _. out_of_fuel
seek (suc k) priority prev curr = if curr == null then pure (prev, curr) else do
  n ← load curr
  if leb priority n.request.priority then seek k priority curr n.next else pure (prev, curr)

-- The new entry goes between the two.
pub link : Ptr → Ptr × Ptr → Cmd Queue (Unit {0})
link entry (prev, curr) = do
  set_next entry curr
  if prev == null then modify (λ s. record s { queue = entry }) else set_next prev entry

-- `entry` is what `malloc` returns; the code does not test it.
pub enqueue : ℕ → (entry : Ptr) → Request → Cmd Queue (Unit {0})
enqueue rounds entry request = if entry == null then (λ _. fault) else do
  store entry (some (node request null))
  lock
  head ← gets (λ s. s.queue)
  place ← seek rounds request.priority null head
  link entry place
  unlock

-- `none` is the result -1, at which `*request` is left alone.
pub dequeue : Cmd Queue (Option Request)
dequeue = do
  lock
  head ← gets (λ s. s.queue)
  if head == null then unlock >> pure none else do
    n ← load head
    modify (λ s. record s { queue = n.next })
    unlock
    free head
    pure (some n.request)

pub free_all : ℕ → Ptr → Cmd Queue (Unit {0})
free_all zero head = λ _. out_of_fuel
free_all (suc k) head =
    if head == null then pure tt else do n ← load head; free head; free_all k n.next

-- The first half of `async_req_q_destroy`, up to the unlock: the worker may still run.
pub free_queue : ℕ → Cmd Queue (Unit {0})
free_queue rounds = do lock; head ← gets (λ s. s.queue); free_all rounds head; unlock

pub destroy : ℕ → Cmd Queue (Unit {0})
destroy rounds = do free_queue rounds; modify (λ s. record s { stop_worker = true })

-- `async_req_q_init`: an empty queue with a fresh mutex, and a worker that may run.
abbrev pub init : Heap Node → Queue
init h = record { heap = h; queue = null; mutex = false; stop_worker = false }

-- What other threads do to the queue before a round of the worker.
abbrev pub Others : Type 0
Others = Queue → Queue

-- `request_q_handler`: the requests that the worker hands to `mq_send`, in order, over the rounds
-- given. A round that finds the queue empty tries again.
pub handler : List Others → Cmd Queue (List Request)
handler [] = pure []
handler (other ∷ rest) = do
  modify other
  stop ← gets (λ s. s.stop_worker)
  if stop then pure [] else do
    next ← dequeue
    sent ← handler rest
    pure (elim next [ none ↦ sent | some r ↦ r ∷ sent ])
