-- ===== src/Server/Worker/Crew.antt =====
-- src/server/server.c: the workers of one client side by side, each at a place of `service_worker`. What a
-- worker does between two places is one step, and the steps of the workers come in any order.
pub mod Counts
pub mod Tests
use tinyfile.Common.{ℕ, ◌+◌, ◌%◌, ◌^◌, ◌≡◌, ◌≢◌, true, false, List, [], ◌∷◌, ◌++◌, replicate}
use tinyfile.Common.Run.{ok}
use tinyfile.Types.{Request, SharedEntry, minus_one}
use tinyfile.Server.Compress.{World, Disk}
use tinyfile.Server.Worker.{Work, handle_request}

-- A worker is at the test of its loop, in `mq_timedreceive`, before the first increment, before
-- `handle_request`, before the second increment, or at its end.
pub data Stage : Type 0 where
  testing waiting served ended : Stage
  received serving : Request → Stage

-- A step of one worker: from its place and what the workers share to the same behind the step. The
-- increments of the counters, which are `int`s, hold `threads_mutex`.
pub data Turn (sizeof_entry : ℕ) : Stage → Work → Stage → Work → Type 0 where
  goes_on : {s : Work} → s.stop_client_threads ≡ false → Turn sizeof_entry testing s waiting s
  leaves : {s : Work} → s.stop_client_threads ≡ true → Turn sizeof_entry testing s ended s
  times_out : {s : Work} → Turn sizeof_entry waiting s testing s
  resizes :
      {s : Work} (r : Request)
      → r.request_id ≡ minus_one
      → Turn sizeof_entry waiting s testing (record s { resizes = s.resizes + 1 })
  receives :
      {s : Work} (r : Request)
      → r.request_id ≢ minus_one
      → Turn sizeof_entry waiting s (received r) s
  starts :
      {s : Work} {r : Request}
      → Turn sizeof_entry
          (received r)
          s
          (serving r)
          (record s { num_requests_started = (s.num_requests_started + 1) % 2 ^ 32 })
  serves :
      {s t : Work} {r : Request} (w : World)
      → handle_request sizeof_entry w r s ≡ ok tt t
      → Turn sizeof_entry (serving r) s served t
  completes :
      {s : Work}
      → Turn sizeof_entry served s testing
          (record s { num_requests_completed = (s.num_requests_completed + 1) % 2 ^ 32 })

-- What the workers share, and where each of them is.
pub record Crew : Type 0 where
  pub shared : Work
  pub stages : List Stage

-- A step of any worker, or of the thread that tells the workers to stop.
pub data Step (sizeof_entry : ℕ) : Crew → Crew → Type 0 where
  turn :
      {s t : Work} {x y : Stage} (before after : List Stage)
      → Turn sizeof_entry x s y t
      → Step sizeof_entry
          (record { shared = s; stages = before ++ (x ∷ after) })
          (record { shared = t; stages = before ++ (y ∷ after) })
  told :
      (c : Crew)
      → Step sizeof_entry c (record c { shared = record (c.shared) { stop_client_threads = true } })

pub data Reach (sizeof_entry : ℕ) (c : Crew) : Crew → Type 0 where
  here : Reach sizeof_entry c c
  next : {d e : Crew} → Reach sizeof_entry c d → Step sizeof_entry d e → Reach sizeof_entry c e

-- The workers as `init_worker_threads` starts them, with a client's memory and files.
abbrev pub fresh : (mapped workers : ℕ) → List SharedEntry → Disk → Crew
fresh mapped workers entries disk = record {
  shared = record {
    mapped = mapped;
    entries = entries;
    disk = disk;
    stop_client_threads = false;
    num_requests_started = 0;
    num_requests_completed = 0;
    resizes = 0;
  };
  stages = replicate workers testing;
}
