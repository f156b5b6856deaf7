-- ===== src/Server/Threads.antt =====
-- src/server/server.c: the worker threads of a client, as far as they are started, joined and cancelled.
pub mod Restart
use tinyfile.Common.{
  ℕ, zero, suc, Bool, true, false, Option, none, some, List, [], ◌∷◌, ◌==◌, if◌then◌else◌,
  replicate,
}
use tinyfile.Common.Run.{ok, fault, blocked, Cmd, pure, ◌>>=◌, ◌>>◌, modify}

-- THREADS_PER_CLIENT
abbrev pub threads_per_client : ℕ
threads_per_client = 10

-- A thread that runs until it sees `stop_client_threads`, one that was asked to end, and one that
-- another thread has waited for, whose identifier must not be used again.
pub data Thread : Type 0 where
  running cancelled joined : Thread

-- Of a client: `stop_client_threads`, `workers`, and whether `threads_mutex` is initialised.
pub record Pool : Type 0 where
  pub stop : Bool
  pub workers : List Thread
  pub mutex : Bool

pub start_worker_threads : Cmd Pool (Unit {0})
start_worker_threads = do
  modify (λ s. record s { stop = false })
  modify (λ s. record s { workers = replicate threads_per_client running })

-- `init_worker_threads`, without the counters, which the client's record has.
pub init_pool : Cmd Pool (Unit {0})
init_pool = do modify (λ s. record s { stop = false; mutex = true }); start_worker_threads

-- The join returns when the thread has ended, which a running one does when it is told to stop.
pub pthread_join : Thread → Cmd Pool Thread
pthread_join running s = if s.stop then ok joined s else blocked
pthread_join cancelled s = ok joined s
pthread_join joined s = fault

pub pthread_cancel : Thread → Cmd Pool Thread
pthread_cancel running = pure cancelled
pthread_cancel cancelled = pure cancelled
pthread_cancel joined = λ _. fault

-- `pthread_self()` as the index of a worker; `none` is a thread that is none of them.
abbrev pub is_self : Option ℕ → ℕ → Bool
is_self none i = false
is_self (some self) i = i == self

pub join_from : Option ℕ → ℕ → List Thread → Cmd Pool (List Thread)
join_from self i [] = pure []
join_from self i (t ∷ ts) = do
  t' ← (if is_self self i then pure t else pthread_join t)
  ts' ← join_from self (suc i) ts
  pure (t' ∷ ts')

pub join_worker_threads : Option ℕ → Cmd Pool (Unit {0})
join_worker_threads self s =
    (do
      modify (λ u. record u { stop = true })
      ts ← join_from self 0 s.workers
      modify (λ u. record u { workers = ts }))
      s

pub cancel_all : List Thread → Cmd Pool (List Thread)
cancel_all [] = pure []
cancel_all (t ∷ ts) = do t' ← pthread_cancel t; ts' ← cancel_all ts; pure (t' ∷ ts')

pub cleanup_worker_threads : Cmd Pool (Unit {0})
cleanup_worker_threads s =
    (do
      modify (λ u. record u { mutex = false })
      ts ← cancel_all s.workers
      modify (λ u. record u { workers = ts }))
      s

-- Of `resize_shm`, which runs in a thread of its own: what it does with the workers.
pub restart : Cmd Pool (Unit {0})
restart = join_worker_threads none >> start_worker_threads
