-- ===== src/Server.antt =====
-- src/server/server.c and include/tinyfile/server.h: the server's state, and its list of clients.
pub mod Compress
pub mod Clients
pub mod Interface
pub mod Machine
pub mod Process
pub mod Registry
mod Tests
pub mod Threads
pub mod Worker
use tinyfile.Common.{
  ℕ, zero, suc, Bool, true, false, Option, none, some, List, ◌==◌, ◌&&◌, not, if◌then◌else◌,
}
use tinyfile.Common.Run.{ok, fault, out_of_fuel, Cmd, pure, ◌>>=◌, ◌>>◌, gets, modify, need}
use tinyfile.Common.Memory.{Ptr, null, Heap, write}
use tinyfile.Types.{CString}

-- `client_t`, without its worker threads and their mutex. The counters are `int`s that only count up.
pub record Client : Type 0 where
  pub pid : ℕ
  pub send_q : ℕ
  pub recv_q : ℕ
  pub shm_addr : ℕ
  pub shm_size : ℕ
  pub shm_name : CString
  pub stop_client_threads : Bool
  pub num_requests_started : ℕ
  pub num_requests_completed : ℕ

-- `client_list_t`
pub record Node : Type 0 where
  pub client : Client
  pub tail : Ptr
  pub next : Ptr
  pub prev : Ptr

-- The server's globals, with the heap that the nodes lie on. `pills` are the queues to which the
-- message TINYFILE_SERVER_CLOSE went, last first.
pub record Server : Type 0 where
  pub heap : Heap Node
  pub clients : Ptr
  pub stop_registry : Bool
  pub pills : List ℕ

pub load : Ptr → Cmd Server Node
load p s = if p == null then fault else need (s.heap p) s

pub store : Ptr → Option Node → Cmd Server (Unit {0})
store p c s = ok tt (record s { heap = write s.heap p c })

-- `p->... = ...`
pub update : Ptr → (Node → Node) → Cmd Server (Unit {0})
update p f = do n ← load p; store p (some (f n))

pub free : Ptr → Cmd Server (Unit {0})
free p = load p >> store p none

pub set_clients : Ptr → Cmd Server (Unit {0})
set_clients p = modify (λ s. record s { clients = p })

pub append_client : Ptr → Cmd Server (Unit {0})
append_client node = do
  head ← gets (λ s. s.clients)
  if head == null
      then (update node (λ n. record n { next = null; prev = null; tail = node })
          >> set_clients node)
      else do
        h ← load head
        update node (λ n. record n { prev = h.tail; next = null; tail = node })
        update h.tail (λ n. record n { next = node })
        update head (λ n. record n { tail = node })

-- The part of `remove_client` that makes the neighbours meet.
bypass : Ptr → Node → Cmd Server (Unit {0})
bypass node n = do
  if n.prev == null then pure tt else update n.prev (λ m. record m { next = n.next })
  if n.next == null
      then (do head ← gets (λ s. s.clients); update head (λ m. record m { tail = n.prev }))
      else update n.next (λ m. record m { prev = n.prev })

pub remove_client : Ptr → Cmd Server (Unit {0})
remove_client node = if node == null then pure tt else do
  n ← load node
  if (n.prev == null) && (n.next == null) then set_clients null else bypass node n

find_loop : ℕ → ℕ → Ptr → Cmd Server Ptr
find_loop zero pid list = λ _. out_of_fuel
find_loop (suc k) pid list =
    if list == null
    then pure list
    else do n ← load list; if n.client.pid == pid then pure list else find_loop k pid n.next

-- The walk is given its rounds; one more than there are clients is enough.
pub find_client : ℕ → ℕ → Cmd Server Ptr
find_client rounds pid = do list ← gets (λ s. s.clients); find_loop rounds pid list
