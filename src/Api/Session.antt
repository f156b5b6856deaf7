-- ===== src/Api/Session.antt =====
-- src/api/api.c: `tinyfile_init` and `tinyfile_exit`, with the queues and the shared memory object that
-- they create and remove.
pub mod Lifetime
pub mod Names
pub mod Opened
pub mod Resources
pub mod Tests
pub mod Traffic
use tinyfile.Common.{
  ℕ, zero, suc, ◌+◌, ◌*◌, ◌/◌, ◌%◌, ◌^◌, Bool, true, false, Option, none, some, List, [], ◌∷◌, ◌++◌,
  ltb, ◌==◌, ◌&&◌, not, if◌then◌else◌, take,
}
use tinyfile.Common.Run.{Run, ok, fault, blocked, out_of_fuel, Cmd, pure, ◌>>=◌, ◌>>◌, gets, modify}
use tinyfile.Common.Memory.{Heap}
use tinyfile.Types.{
  Arg, CString, SharedEntry, RegistryEntry, RegistryCmd, client_register, client_unregister,
  minus_one, size_of_int,
}
use tinyfile.RequestQ
use tinyfile.RequestQ.{Node}
use tinyfile.Api.{Api, on_queue}
use tinyfile.Api.Shm.{truncate}

-- The library's state, with the names and descriptors of `struct client`, `tinyfile_registry_entry`, the
-- messages sent to the registry, last first, and the names of the message queues and shared memory
-- objects that exist, newest first.
pub record Session : Type 0 where
  pub api : Api
  pub send_q_name : CString
  pub recv_q_name : CString
  pub shm_name : CString
  pub send_q : ℕ
  pub recv_q : ℕ
  pub entry : RegistryEntry
  pub registry : List RegistryEntry
  pub queues : List CString
  pub shms : List CString

-- What the system answers to `tinyfile_init`; `none` is an error. `unset` is what the argument of
-- the entry on the stack happens to hold.
pub record Opening : Type 0 where
  pub pid : ℕ
  pub open_registry : Option ℕ
  pub open_send_q : Option ℕ
  pub open_recv_q : Option ℕ
  pub shm_open : Option ℕ
  pub mmap : Option ℕ
  pub send : Bool
  pub unset : Arg

-- A command on the library's state, as a command on the session.
abbrev pub put_api : {A : Type 0} → Session → Run Api A → Run Session A
put_api s (ok a t) = ok a (record s { api = t })
put_api s fault = fault
put_api s blocked = blocked
put_api s out_of_fuel = out_of_fuel

abbrev pub on_api : {A : Type 0} → Cmd Api A → Cmd Session A
on_api m s = put_api s (m s.api)

-- The error codes of include/tinyfile/api.h.
abbrev pub init_error : ℕ
init_error = 1

abbrev pub exit_error : ℕ
exit_error = 2

abbrev pub create_queue_error : ℕ
create_queue_error = 3

abbrev pub create_shm_error : ℕ
create_shm_error = 4

abbrev pub destroy_shm_error : ℕ
destroy_shm_error = 5

-- "/tinyfile-sendq-", "/tinyfile-recvq-" and "/tinyfile-shm-"
abbrev pub sendq_prefix : CString
sendq_prefix =
    47 ∷ 116 ∷ 105 ∷ 110 ∷ 121 ∷ 102 ∷ 105 ∷ 108 ∷ 101 ∷ 45 ∷ 115 ∷ 101 ∷ 110 ∷ 100 ∷ 113 ∷ 45 ∷ []

abbrev pub recvq_prefix : CString
recvq_prefix =
    47 ∷ 116 ∷ 105 ∷ 110 ∷ 121 ∷ 102 ∷ 105 ∷ 108 ∷ 101 ∷ 45 ∷ 114 ∷ 101 ∷ 99 ∷ 118 ∷ 113 ∷ 45 ∷ []

abbrev pub shm_prefix : CString
shm_prefix = 47 ∷ 116 ∷ 105 ∷ 110 ∷ 121 ∷ 102 ∷ 105 ∷ 108 ∷ 101 ∷ 45 ∷ 115 ∷ 104 ∷ 109 ∷ 45 ∷ []

-- `%ld` of a process id, which is positive; a round for each digit.
pub digits : ℕ → ℕ → CString
digits zero n = []
digits (suc k) n =
    let front = digits k (n / 10) in
    if ltb n 10 then (48 + n) ∷ [] else front ++ ((48 + n % 10) ∷ [])

pub decimal : ℕ → CString
decimal n = digits 20 n

pub create_queues : Opening → Cmd Session ℕ
create_queues w = do
  modify (λ s. record s {
    send_q_name = sendq_prefix ++ decimal w.pid;
    recv_q_name = recvq_prefix ++ decimal w.pid;
  })
  elim w.open_send_q [
    | none ↦ (modify (λ s. record s { send_q = minus_one }) >> pure create_queue_error)
    | some send_q ↦ (do
      modify (λ s. record s { send_q = send_q; queues = s.send_q_name ∷ s.queues })
      elim w.open_recv_q [
        | none ↦ (modify (λ s. record s { recv_q = minus_one }) >> pure create_queue_error)
        | some recv_q ↦ (do
          modify (λ s. record s { recv_q = recv_q; queues = s.recv_q_name ∷ s.queues })
          pure 0)
      ])
  ]

-- The loop of `create_shm`: each entry of the object becomes neither used nor done.
pub init_entries : Arg → List SharedEntry → List SharedEntry
init_entries unset [] = []
init_entries unset (e ∷ es) =
    record { used = false; done = false; arg = unset } ∷ init_entries unset es

-- Of `mq_unlink` and `shm_unlink`: whether two names are the same, and the names without one.
unfoldable pub same_name : CString → CString → Bool
same_name [] [] = true
same_name [] (b ∷ t) = false
same_name (a ∷ s) [] = false
same_name (a ∷ s) (b ∷ t) = (a == b) && same_name s t

pub unlink : CString → List CString → List CString
unlink name [] = []
unlink name (x ∷ xs) = if same_name name x then xs else x ∷ unlink name xs

module _ (sizeof_entry : ℕ) where
  pub create_shm : Opening → Cmd Session ℕ
  create_shm w = do
    modify (λ s. record s { shm_name = shm_prefix ++ decimal w.pid })
    elim w.shm_open [
      | none ↦ (do
        modify (λ s. record s { api = record (s.api) { shm_fd = minus_one } })
        pure create_shm_error)
      | some fd ↦ (do
        num ← gets (λ s. size_of_int s.api.shm_size / sizeof_entry)
        modify (λ s. record s {
          shms = s.shm_name ∷ s.shms;
          api = record (s.api) {
            shm_fd = fd;
            mapped = (sizeof_entry * num) % 2 ^ 64;
            entries = truncate num [];
          };
        })
        elim w.mmap [
          | none ↦ pure create_shm_error
          | some addr ↦ (do
            modify (λ s. record s {
              api = record (s.api) {
                shm_addr = addr;
                entries = init_entries w.unset s.api.entries;
                shm_resize_lock = false;
              };
            })
            pure 0)
        ])
    ]

  -- The end of `tinyfile_init`: the message to the registry, and the library's own state. `strncpy`
  -- copies at most 100 bytes.
  pub register : Opening → Heap Node → Cmd Session ℕ
  register w heap = do
    modify (λ s. record s {
      entry = record {
        cmd = client_register;
        pid = w.pid;
        send_q_name = take 100 s.send_q_name;
        recv_q_name = take 100 s.recv_q_name;
        shm_name = take 100 s.shm_name;
      };
    })
    if not w.send then pure init_error else do
      modify (λ s. record s {
        registry = s.entry ∷ s.registry;
        api = record (s.api) { global_request_id = 0; requests = RequestQ.init heap; init = true };
      })
      pure 0

  -- `heap` is what lies on the heap of the request queue at the start.
  pub tinyfile_init : Opening → Heap Node → Cmd Session ℕ
  tinyfile_init w heap = do
    ready ← gets (λ s. s.api.init)
    if ready then pure init_error else elim w.open_registry [
      | none ↦ pure init_error
      | some registry ↦ (do
        error ← create_queues w
        if not (error == 0) then pure error else do
          failed ← create_shm w
          if not (failed == 0) then pure failed else register w heap)
    ]

pub destroy_queues : Cmd Session (Unit {0})
destroy_queues = do
  modify (λ s. record s { queues = unlink s.send_q_name s.queues })
  modify (λ s. record s { queues = unlink s.recv_q_name s.queues })

-- `unlinked` tells whether `shm_unlink` succeeds; if not, the object is not unmapped either.
pub destroy_shm : (unlinked : Bool) → Cmd Session ℕ
destroy_shm unlinked =
    if not unlinked
    then pure destroy_shm_error
    else do modify (λ s. record s { shms = unlink s.shm_name s.shms }); pure 0

-- `rounds` are for the loop that frees the request queue.
pub tinyfile_exit : (rounds : ℕ) → (sent unlinked : Bool) → Cmd Session ℕ
tinyfile_exit rounds sent unlinked = do
  ready ← gets (λ s. s.api.init)
  if not ready then pure exit_error else do
    modify (λ s. record s { entry = record (s.entry) { cmd = client_unregister } })
    if not sent then pure exit_error else do
      modify (λ s. record s { registry = s.entry ∷ s.registry })
      on_api (on_queue (RequestQ.destroy rounds))
      destroy_queues
      destroy_shm unlinked
      modify (λ s. record s { api = record (s.api) { init = false } })
      pure 0
