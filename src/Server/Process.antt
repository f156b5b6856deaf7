-- ===== src/Server/Process.antt =====
-- src/server/server.c: the server as a process: `init_server`, `main`, and `exit_server` with the
-- registry's queue and thread.
mod Tests
pub mod Lifetime
use tinyfile.Common.{
  ℕ, zero, suc, Bool, true, false, Option, none, some, List, [], ◌∷◌, ◌==◌, not, if◌then◌else◌,
}
use tinyfile.Common.Run.{Run, ok, fault, blocked, out_of_fuel, Cmd, pure, ◌>>=◌, ◌>>◌, gets, modify}
use tinyfile.Types.{CString, minus_one, registry_queue}
use tinyfile.Api.Session.{unlink}
use tinyfile.Server.{Server}
use tinyfile.Server.Registry.{Answers, exit_loop}

-- `registry_thread`: a thread may be joined once, and only after it was created.
pub data RegistryThread : Type 0 where
  not_created running joined : RegistryThread

-- `global_registry` is 0 until a queue was opened and `minus_one` for an error; `queues` are the names
-- of the message queues that exist, newest first; `exits` is whether `exit_server` runs at exit.
pub record Process : Type 0 where
  pub server : Server
  pub global_registry : ℕ
  pub queues : List CString
  pub thread : RegistryThread
  pub exits : Bool

abbrev pub put_server : {A : Type 0} → Process → Run Server A → Run Process A
put_server s (ok a t) = ok a (record s { server = t })
put_server s fault = fault
put_server s blocked = blocked
put_server s out_of_fuel = out_of_fuel

abbrev pub on_server : {A : Type 0} → Cmd Server A → Cmd Process A
on_server m s = put_server s (m s.server)

-- What `mq_open` with O_EXCL and O_CREAT answers.
pub data Opened : Type 0 where
  opened : ℕ → Opened
  exists failed : Opened

-- What the world gives to `init_server`: the two calls of `mq_open`, the second of which follows an
-- `mq_unlink`, and whether the thread can be created.
pub record Starting : Type 0 where
  pub open_first : Opened
  pub open_second : Opened
  pub creates : Bool

pub open_registry : Opened → Cmd Process (Unit {0})
open_registry (opened q) =
    modify (λ s. record s { global_registry = q; queues = registry_queue ∷ s.queues })
open_registry exists = modify (λ s. record s { global_registry = minus_one })
open_registry failed = modify (λ s. record s { global_registry = minus_one })

-- `false` is `exit(EXIT_FAILURE)`.
pub open_or_replace : Starting → Cmd Process Bool
open_or_replace w = do
  open_registry w.open_first
  elim w.open_first [
    | opened q ↦ pure true
    | exists ↦ (do
      modify (λ s. record s { queues = unlink registry_queue s.queues })
      open_registry w.open_second
      pure true)
    | failed ↦ pure false
  ]

pub init_server : Starting → Cmd Process Bool
init_server w = do
  modify (λ s. record s { exits = true })
  goes_on ← open_or_replace w
  if not goes_on
      then pure false
      else if not w.creates
      then pure false
      else modify (λ s. record s { thread = running }) >> pure true

-- The join waits for the thread, which ends since `STOP_REGISTRY` is set.
join_registry : RegistryThread → Cmd Process (Unit {0})
join_registry not_created = λ _. fault
join_registry running = modify (λ s. record s { thread = joined })
join_registry joined = λ _. fault

pub exit_server : List Answers → Cmd Process (Unit {0})
exit_server answers = do
  client_list ← gets (λ s. s.server.clients)
  on_server (exit_loop answers client_list)
  registry ← gets (λ s. s.global_registry)
  if registry == 0
      then pure tt
      else modify (λ s. record s { queues = unlink registry_queue s.queues })
  modify (λ s. record s { server = record (s.server) { stop_registry = true } })
  thread ← gets (λ s. s.thread)
  join_registry thread

-- What the other threads do to the process before a byte is read.
abbrev pub Others : Type 0
Others = Process → Process

-- The loop of `main`: `input` is the byte of the buffer, at first whatever it holds. At the end of the
-- input the buffer stays as it is.
pub await_q : ℕ → List (Others × ℕ) → Cmd Process (Unit {0})
await_q input [] = if input == 113 then pure tt else (λ _. out_of_fuel)
await_q input ((other, byte) ∷ rest) =
    if input == 113 then pure tt else modify other >> await_q byte rest

-- `false` is `exit(EXIT_FAILURE)` in `init_server`.
pub main : Starting → ℕ → List (Others × ℕ) → List Answers → Cmd Process Bool
main w input bytes answers = do
  goes_on ← init_server w
  if not goes_on then pure false else do await_q input bytes; exit_server answers; pure true

-- The whole run: `main`, and at exit the function that `init_server` registered.
pub run : Starting → ℕ → List (Others × ℕ) → (answers later : List Answers) → Cmd Process Bool
run w input bytes answers later = do
  fine ← main w input bytes answers
  registered ← gets (λ s. s.exits)
  if registered then exit_server later >> pure fine else pure fine
