-- ===== src/RequestQ/Tests.antt =====
-- Concrete queues, at which the theorems on the request queue apply.
use tinyfile.Common.{ℕ, ◌≡◌, refl, true, false, none, some, List, [], ◌∷◌, arith}
use tinyfile.Common.Run.{fault, then_run}
use tinyfile.Common.Returns.{Returns}
use tinyfile.Common.Memory.{Ptr, null, write}
use tinyfile.Types.{Request, compress}
use tinyfile.RequestQ.{node, Queue, enqueue, dequeue, destroy, free_queue}
use tinyfile.RequestQ.Chain.{Cells, holds, SameBut}
use tinyfile.RequestQ.Insert.{insert}
use tinyfile.RequestQ.Refine.{IsQueue, enqueue-insert}
use tinyfile.RequestQ.Arena.Laws.{request_q}
use tinyfile.RequestQ.History.{QueueOp, put, take, run_ops, request_q-on_list}
use tinyfile.RequestQ.Shutdown.{destroy-frees, free_queue-dequeue}

-- A request with a priority and a number.
abbrev pub request_of : ℕ → ℕ → Request
request_of priority id = record {
  service = compress;
  priority = priority;
  request_id = id;
  entry_idx = 0;
  pid = 7;
}

abbrev pub two_cells : Cells
two_cells = (1, request_of 5 0) ∷ (2, request_of 3 1) ∷ []

abbrev pub two_queued : Queue
two_queued = record {
  heap =
      write (write (λ _. none) 2 (some (node (request_of 3 1) null))) 1
        (some (node (request_of 5 0) 2));
  queue = 1;
  mutex = false;
  stop_worker = false;
}

pub two_queued-IsQueue : IsQueue two_queued two_cells
unfolding write
two_queued-IsQueue = record {
  chain = (omega arith, refl, refl, (omega arith, refl, refl, tt));
  head = refl;
  free_mutex = refl;
}

pub two_queued-unused : two_queued.heap 3 ≡ none
unfolding write
two_queued-unused = refl

abbrev middle : Request
middle = request_of 4 2

enqueue-insert_example :
    Returns
      (λ _ t.
        IsQueue t (insert (3, middle) two_cells)
        × SameBut (insert (3, middle) two_cells) two_queued.heap t.heap
        × (t.stop_worker ≡ false))
      (enqueue 3 3 middle two_queued)
enqueue-insert_example =
    enqueue-insert 3 3 middle two_queued two_cells two_queued-IsQueue (omega arith)
      two_queued-unused (omega arith)

destroy-frees_example :
    Returns
      (λ _ t.
        ((a : Ptr) → holds a two_cells ≡ true → t.heap a ≡ none)
        × SameBut two_cells two_queued.heap t.heap
        × (t.mutex ≡ false)
        × (t.stop_worker ≡ true))
      (destroy 3 two_queued)
destroy-frees_example = destroy-frees 3 two_queued two_cells two_queued-IsQueue (omega arith)

free_queue-dequeue_example : then_run (free_queue 3 two_queued) (λ _. dequeue) ≡ fault
free_queue-dequeue_example =
    free_queue-dequeue 3 two_queued 1 (request_of 5 0) ((2, request_of 3 1) ∷ []) two_queued-IsQueue
      (omega arith)

abbrev three_ops : List QueueOp
three_ops = put (request_of 3 0) ∷ put (request_of 5 1) ∷ take ∷ put (request_of 3 2) ∷ []

request_q-on_list_example :
    Returns
      (λ got t.
        (got ≡ some (request_of 5 1) ∷ [])
        × Returns
            (λ sent _. sent ≡ request_of 3 0 ∷ request_of 3 2 ∷ [])
            (request_q.request_q_handler 2 t))
      (run_ops request_q three_ops request_q.async_req_q_init)
request_q-on_list_example = request_q-on_list three_ops 2 (omega arith)
