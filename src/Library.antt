-- ===== src/Library.antt =====
-- include/tinyfile/api.h: what the library offers to a program, as an interface over the state `S` that
-- the library keeps, and src/api/api.c as its implementation.
pub mod Backlog
pub mod Calls
pub mod Runs
use tinyfile.Common.{ℕ, ◌≤◌, ◌≡◌, Option, none, some, List, [], ◌∷◌, Bool}
use tinyfile.Common.Run.{Run, ok, fault, blocked, out_of_fuel, Cmd, pure, ◌>>=◌, ◌>>◌, gets, modify}
use tinyfile.Common.Gives.{Gives}
use tinyfile.Common.Memory.{Heap}
use tinyfile.Types.{Arg, Service, EntryIdx, Priority, minus_one}
use tinyfile.RequestQ.{Node}
use tinyfile.Api.{Api, Others, set_shm_size}
use tinyfile.Api.Requests
use tinyfile.Api.Requests.{Call}
use tinyfile.Api.Session
use tinyfile.Api.Session.{Session, Opening, on_api}

-- A call gives its result and what it wrote through its pointers; `none` is a pointer left alone.
pub record Library (S : Type 0) : Type 0 where
  pub tinyfile_init : Cmd S ℕ
  pub tinyfile_exit : Cmd S ℕ
  pub tinyfile_sync : Arg → Service → Priority → Cmd S (ℕ × Option Arg)
  pub tinyfile_async : Arg → Service → Priority → Cmd S (ℕ × Option EntryIdx)
  pub tinyfile_async_wait : EntryIdx → Cmd S (ℕ × Arg)
  pub tinyfile_async_join : List EntryIdx → ℕ → List Arg → Cmd S (ℕ × List Arg)
  pub tinyfile_set_shm_size : ℕ → Cmd S (Unit {0})

-- What a program relies on: of the priorities up to 31, a call that returns has the code 0 and gives
-- its result.
pub record IsLibrary {S : Type 0} (l : Library S) : Type 0 where
  pub sync_gives :
      (arg : Arg) (service : Service) (p : Priority) (s : S)
      → p ≤ 31
      → Gives (λ r t. (out : Arg) × (r ≡ (0, some out))) (l.tinyfile_sync arg service p s)
  pub async_gives :
      (arg : Arg) (service : Service) (p : Priority) (s : S)
      → p ≤ 31
      → Gives (λ r t. (idx : EntryIdx) × (r ≡ (0, some idx))) (l.tinyfile_async arg service p s)
  pub wait_gives :
      (idx : EntryIdx) (s : S)
      → Gives (λ r t. (out : Arg) × (r ≡ (0, out))) (l.tinyfile_async_wait idx s)

-- The library's state, with what the world will give to the calls to come: one `Call` to each that
-- makes a request, and rounds to each that waits.
pub record Running : Type 0 where
  pub session : Session
  pub opening : Opening
  pub heap : Heap Node
  pub exit_rounds : ℕ
  pub sends : Bool
  pub unlinks : Bool
  pub calls : List Call
  pub waits : List (List Others)

abbrev pub put_session : {A : Type 0} → Running → Run Session A → Run Running A
put_session s (ok a t) = ok a (record s { session = t })
put_session s fault = fault
put_session s blocked = blocked
put_session s out_of_fuel = out_of_fuel

abbrev pub on_session : {A : Type 0} → Cmd Session A → Cmd Running A
on_session m s = put_session s (m s.session)

take_call : List Call → Cmd Running Call
take_call [] s = out_of_fuel
take_call (c ∷ rest) s = ok c (record s { calls = rest })

pub next_call : Cmd Running Call
next_call s = take_call s.calls s

take_wait : List (List Others) → Cmd Running (List Others)
take_wait [] s = out_of_fuel
take_wait (w ∷ rest) s = ok w (record s { waits = rest })

pub next_wait : Cmd Running (List Others)
next_wait s = take_wait s.waits s

-- The code and the arguments of a join; -1 leaves `outs` alone.
abbrev pub joined_outs : List Arg → Option (List Arg) → ℕ × List Arg
joined_outs outs none = (minus_one, outs)
joined_outs outs (some filled) = (0, filled)

-- src/api/api.c as the implementation.
pub library : (sizeof_entry : ℕ) → Library Running
library sizeof_entry = record {
  tinyfile_init = do
    w ← gets (λ s. s.opening)
    heap ← gets (λ s. s.heap)
    on_session (Session.tinyfile_init sizeof_entry w heap);
  tinyfile_exit = do
    rounds ← gets (λ s. s.exit_rounds)
    sends ← gets (λ s. s.sends)
    unlinks ← gets (λ s. s.unlinks)
    on_session (Session.tinyfile_exit rounds sends unlinks);
  tinyfile_sync = λ arg service p. do
    c ← next_call
    on_session (on_api (Requests.tinyfile_sync sizeof_entry c arg service p));
  tinyfile_async = λ arg service p. do
    c ← next_call
    on_session (on_api (Requests.tinyfile_async sizeof_entry c arg service p));
  tinyfile_async_wait = λ idx. do
    rounds ← next_wait
    out ← on_session (on_api (Requests.tinyfile_async_wait sizeof_entry rounds idx))
    pure (0, out);
  tinyfile_async_join = λ idxs num outs. do
    rounds ← next_wait
    got ← on_session (on_api (Requests.tinyfile_async_join sizeof_entry rounds idxs num outs))
    pure (joined_outs outs got);
  tinyfile_set_shm_size = λ size.
      modify
        (λ s. record s { session = record (s.session) { api = set_shm_size size s.session.api } });
}
