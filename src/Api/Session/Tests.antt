-- ===== src/Api/Session/Tests.antt =====
-- A concrete session, at which the theorems on its lifetime apply.
use tinyfile.Common.{◌≡◌, refl, true, false, none, some, [], ◌∷◌, ◌++◌, arith}
use tinyfile.Common.Run.{then_run}
use tinyfile.Common.Returns.{Returns}
use tinyfile.Common.Memory.{Heap}
use tinyfile.Types.{RegistryEntry, client_unregister}
use tinyfile.RequestQ.{Node}
use tinyfile.RequestQ.Tests.{two_cells, two_queued-IsQueue}
use tinyfile.Api.Tests.{arg_of, four_entries}
use tinyfile.Api.Session.{
  Session, Opening, sendq_prefix, recvq_prefix, decimal, same_name, tinyfile_init, tinyfile_exit,
  exit_error,
}
use tinyfile.Api.Session.Opened.{IsOpen, Succeeds, registration, Opened, tinyfile_init-Opened}
use tinyfile.Api.Session.Lifetime.{
  Closed, tinyfile_exit-Closed, tinyfile_init-tinyfile_exit, tinyfile_init-leaks,
}

abbrev blank_entry : RegistryEntry
blank_entry = record {
  cmd = client_unregister;
  pid = 0;
  send_q_name = [];
  recv_q_name = [];
  shm_name = [];
}

-- A library that is not initialised, beside the queue of another program.
abbrev pub idle : Session
idle = record {
  api = record four_entries { init = false };
  send_q_name = [];
  recv_q_name = [];
  shm_name = [];
  send_q = 0;
  recv_q = 0;
  entry = blank_entry;
  registry = [];
  queues = (47 ∷ []) ∷ [];
  shms = [];
}

abbrev pub working : Opening
working = record {
  pid = 7;
  open_registry = some 3;
  open_send_q = some 4;
  open_recv_q = some 5;
  shm_open = some 6;
  mmap = some 4096;
  send = true;
  unset = arg_of 1;
}

pub working-Succeeds : Succeeds working
working-Succeeds = record {
  registry = 3;
  send_q = 4;
  recv_q = 5;
  fd = 6;
  addr = 4096;
  opens_registry = refl;
  opens_send_q = refl;
  opens_recv_q = refl;
  opens_shm = refl;
  maps = refl;
  sends = refl;
}

abbrev pub no_nodes : Heap Node
no_nodes a = none

tinyfile_init-Opened_example : Returns (Opened 100 7 idle) (tinyfile_init 100 working no_nodes idle)
tinyfile_init-Opened_example =
    tinyfile_init-Opened 100 working no_nodes idle working-Succeeds refl (omega arith) (omega arith)

-- An initialised library with two requests in its queue.
abbrev busy : Session
busy = record idle {
  api = four_entries;
  send_q_name = 1 ∷ [];
  recv_q_name = 2 ∷ [];
  shm_name = 3 ∷ [];
  queues = (2 ∷ []) ∷ (1 ∷ []) ∷ (47 ∷ []) ∷ [];
  shms = (3 ∷ []) ∷ [];
}

busy-IsOpen : IsOpen ((47 ∷ []) ∷ []) [] busy
unfolding same_name
busy-IsOpen = record { ready = refl; queues = refl; apart = refl; shms = refl }

tinyfile_exit-Closed_example :
    Returns (Closed ((47 ∷ []) ∷ []) [] two_cells busy) (tinyfile_exit 3 true true busy)
tinyfile_exit-Closed_example =
    tinyfile_exit-Closed 3 ((47 ∷ []) ∷ []) [] busy two_cells busy-IsOpen two_queued-IsQueue
      (omega arith)

tinyfile_init-tinyfile_exit_example :
    Returns
      (λ code t.
        (code ≡ 0)
        × (t.queues ≡ (47 ∷ []) ∷ [])
        × (t.shms ≡ [])
        × (t.api.init ≡ false)
        × (t.registry ≡ record (registration 7) { cmd = client_unregister } ∷ registration 7 ∷ []))
      (then_run (tinyfile_init 100 working no_nodes idle) (λ _. tinyfile_exit 1 true true))
tinyfile_init-tinyfile_exit_example =
    tinyfile_init-tinyfile_exit 100 1 working no_nodes idle refl working-Succeeds (omega arith)
      (omega arith) (omega arith)

-- The memory object cannot be created.
abbrev failing : Opening
failing = record working { shm_open = none }

tinyfile_init-leaks_example :
    Returns
      (λ code t.
        (code ≡ exit_error)
        × (t.queues ≡ (recvq_prefix ++ decimal 7) ∷ (sendq_prefix ++ decimal 7) ∷ (47 ∷ []) ∷ []))
      (then_run (tinyfile_init 100 failing no_nodes idle) (λ _. tinyfile_exit 1 true true))
tinyfile_init-leaks_example =
    tinyfile_init-leaks 100 1 failing no_nodes idle refl 3 4 5 refl refl refl refl

-- Another program.
abbrev other : Opening
other = record working { pid = 8 }
