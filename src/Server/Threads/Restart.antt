-- ===== src/Server/Threads/Restart.antt =====
-- src/server/server.c: the workers after a resize, and after their client has gone.
use tinyfile.Common.{ℕ, zero, suc, ◌≡◌, refl, true, false, none, replicate}
use tinyfile.Common.Run.{ok, fault, then_run}
use tinyfile.Common.Returns.{Returns, returns}
use tinyfile.Server.Threads.{
  init_pool, threads_per_client, running, cancelled, joined, Pool, start_worker_threads,
  pthread_join, pthread_cancel, join_from, join_worker_threads, cancel_all, cleanup_worker_threads,
  restart,
}

join_from-running :
    (n i : ℕ) (s : Pool)
    → s.stop ≡ true
    → join_from none i (replicate n running) s ≡ ok (replicate n joined) s
unfolding join_from pthread_join
join_from-running zero i s stopped = refl
join_from-running (suc n) i s stopped = simp (stopped, join_from-running n (suc i) s stopped)

cancel_all-running :
    (n : ℕ) (s : Pool) → cancel_all (replicate n running) s ≡ ok (replicate n cancelled) s
unfolding cancel_all pthread_cancel
cancel_all-running zero s = refl
cancel_all-running (suc n) s = rw (cancel_all-running n s) refl

-- A resize waits for every worker that runs and starts ten new ones, which are not told to stop; it does
-- not touch the mutex.
pub restart-running :
    (n : ℕ) (s : Pool)
    → s.workers ≡ replicate n running
    → restart s ≡ ok tt (record s { stop = false; workers = replicate threads_per_client running })
unfolding restart join_worker_threads start_worker_threads
restart-running n s workers =
    simp (
      workers,
      join_from-running n 0 (record s { stop = true; workers = replicate n running }) refl,
    )

-- When a client's threads are cleaned up, its workers are asked to end, but none has been waited for,
-- none is told to stop, and the mutex that they use is destroyed.
pub cleanup_worker_threads-running :
    (n : ℕ) (s : Pool)
    → s.workers ≡ replicate n running
    → s.stop ≡ false
    → Returns
        (λ _ t. (t.workers ≡ replicate n cancelled) × (t.stop ≡ false) × (t.mutex ≡ false))
        (cleanup_worker_threads s)
unfolding cleanup_worker_threads
cleanup_worker_threads-running n s workers runs =
    simp (workers, cancel_all-running n (record s { mutex = false; workers = replicate n running }))
      (returns (refl, runs, refl))

-- Threads that were joined must be started again before they are joined once more.
pub join_worker_threads-twice :
    (n : ℕ) (s : Pool)
    → s.workers ≡ replicate (suc n) running
    → then_run (join_worker_threads none s) (λ _. join_worker_threads none) ≡ fault
unfolding join_worker_threads join_from pthread_join
join_worker_threads-twice n s workers = simp (
  workers,
  join_from-running (suc n) 0 (record s { stop = true; workers = replicate (suc n) running }) refl,
)

-- What `init_worker_threads` makes of the workers, whatever they were.
abbrev pub ready : Pool
ready = record { stop = false; workers = replicate threads_per_client running; mutex = true }

pub init_pool-ready : (s : Pool) → init_pool s ≡ ok tt ready
unfolding init_pool start_worker_threads
init_pool-ready s = refl
