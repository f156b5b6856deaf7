-- ===== src/Api/Requests.antt =====
-- src/api/api.c: `prepare_request`, and the calls of the library that send and await requests.
pub mod Calls
pub mod Unserved
pub mod Wait
pub mod Codes
pub mod Exchange
pub mod Join
mod Tests
use tinyfile.Common.{
  ℕ, zero, suc, ◌+◌, ◌%◌, ◌^◌, ◌<◌, Bool, true, false, Option, none, some, List, [], ◌∷◌, ltb, leb,
  ◌==◌, if◌then◌else◌, get_elem?, set, length, replicate, not, ◌||◌,
}
use tinyfile.Common.Run.{ok, fault, out_of_fuel, Cmd, pure, ◌>>=◌, ◌>>◌, gets, modify, need}
use tinyfile.Types.{Request, Arg, Service}
use tinyfile.Common.Memory.{Ptr}
use tinyfile.RequestQ
use tinyfile.Api.{Api, Others, on_queue}
use tinyfile.Api.Entries.{Round, find_shared_entry, is_request_done, recv_response}

-- TINYFILE_PRIORITY_ERROR
abbrev pub priority_error : ℕ
priority_error = 6

-- What the world gives to one call: the process id, what the request on the stack holds before it is
-- filled in, the rounds of `find_shared_entry`, the fuel of the queue's walk, the node that `malloc`
-- returns, and the rounds of `recv_response`.
pub record Call : Type 0 where
  pub pid : ℕ
  pub unset : Request
  pub finding : List Round
  pub walk : ℕ
  pub fresh : Ptr
  pub polling : List Others

-- `global_request_id++`, in 32 bits.
next_id : Cmd Api ℕ
next_id s =
    ok s.global_request_id (record s { global_request_id = (s.global_request_id + 1) % 2 ^ 32 })

module _ (sizeof_entry : ℕ) where
  -- The error code, and the request as far as it was filled in. `priority` is unsigned.
  pub prepare_request : Call → Arg → Service → ℕ → Cmd Api (ℕ × Request)
  prepare_request c arg service priority =
      let req = record (c.unset) { service = service; pid = c.pid } in
      if ltb 31 priority then pure (priority_error, req) else do
        id ← next_id
        idx ← find_shared_entry sizeof_entry c.finding arg
        pure (0, record req { priority = priority; request_id = id; entry_idx = idx })

  -- The result, and what went to `*out`.
  pub tinyfile_sync : Call → Arg → Service → ℕ → Cmd Api (ℕ × Option Arg)
  tinyfile_sync c arg service priority = do
    (error, req) ← prepare_request c arg service priority
    if not (error == 0) then pure (error, none) else do
      on_queue (RequestQ.enqueue c.walk c.fresh req)
      (out, slept) ← recv_response sizeof_entry c.polling req.entry_idx
      pure (0, some out)

  -- The result, and what went to `*entry_idx`.
  pub tinyfile_async : Call → Arg → Service → ℕ → Cmd Api (ℕ × Option ℕ)
  tinyfile_async c arg service priority = do
    (error, req) ← prepare_request c arg service priority
    if not (error == 0)
        then pure (error, none)
        else do on_queue (RequestQ.enqueue c.walk c.fresh req); pure (0, some req.entry_idx)

  pub tinyfile_async_wait : List Others → ℕ → Cmd Api Arg
  tinyfile_async_wait rounds idx = do (out, slept) ← recv_response sizeof_entry rounds idx; pure out

  -- The loop of `tinyfile_async_join`: `requests_done`, `outs`, `done` and `i` are its variables.
  pub join_loop : List Others → List ℕ → ℕ → List Bool → List Arg → ℕ → ℕ → Cmd Api (List Arg)
  join_loop [] idxs num requests_done outs done i =
      if ltb done num then (λ _. out_of_fuel) else pure outs
  join_loop (o ∷ rest) idxs num requests_done outs done i =
      if not (ltb done num) then pure outs else do
        flag ← need (get_elem? requests_done i)
        if flag
            then (modify o >> join_loop rest idxs num requests_done outs done ((i + 1) % num))
            else do
              idx ← need (get_elem? idxs i)
              got ← is_request_done sizeof_entry o idx
              elim got [
                | none ↦ join_loop rest idxs num requests_done outs done ((i + 1) % num)
                | some out ↦
                    join_loop rest idxs num (set requests_done i true) (set outs i out) (done + 1)
                      ((i + 1) % num)
              ]

  -- `num_requests` is an `int`; `none` is the result -1, at which nothing is done.
  pub tinyfile_async_join : List Others → List ℕ → ℕ → List Arg → Cmd Api (Option (List Arg))
  tinyfile_async_join rounds idxs num outs =
      if num == 0 || leb (2 ^ 31) num
      then pure none
      else do filled ← join_loop rounds idxs num (replicate num false) outs 0 0; pure (some filled)
