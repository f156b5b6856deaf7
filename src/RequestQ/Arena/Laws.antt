-- ===== src/RequestQ/Arena/Laws.antt =====
-- src/api/api.c as the implementation of the interface of the queue.
use tinyfile.Common.{refl, none, [], arith}
use tinyfile.RequestQ.{init}
use tinyfile.RequestQ.Interface.{RequestQueue}
use tinyfile.RequestQ.Arena.{
  Arena, request_q_enqueue, request_q_dequeue, request_q_handler, async_req_q_destroy, Holds,
}
use tinyfile.RequestQ.Arena.Enqueue.{enqueue-Holds}
use tinyfile.RequestQ.Arena.Dequeue.{dequeue-Holds}
use tinyfile.RequestQ.Arena.Handler.{handler-Holds, destroy_stops}

-- The request queue of src/api/api.c.
instance pub request_q : RequestQueue Arena
request_q = record {
  Holds = Holds;
  request_q_enqueue = request_q_enqueue;
  request_q_dequeue = request_q_dequeue;
  request_q_handler = request_q_handler;
  async_req_q_init = record { requests = init (λ p. none); next = 1 };
  async_req_q_destroy = async_req_q_destroy;
  init_holds = record {
    cells = [];
    queued = record { chain = tt; head = refl; free_mutex = refl };
    content = refl;
    count = omega arith;
    unused = λ p le. refl;
    runs = refl;
  };
  enqueue_holds = enqueue-Holds;
  dequeue_holds = dequeue-Holds;
  handler_holds = handler-Holds;
  destroy_stops = destroy_stops;
}
