-- ===== src/Api/Entries.antt =====
-- src/api/api.c: taking an entry of the shared memory, and waiting for the server's answer in it.
-- A loop that waits for others is given its rounds, each with what others do before it; it runs
-- out of fuel when they end.
pub mod Find
pub mod Poll
pub mod Waits
use tinyfile.Common.{
  ℕ, zero, suc, ◌+◌, ◌*◌, ◌/◌, ◌%◌, ◌^◌, Bool, true, false, Option, none, some, List, [], ◌∷◌, not,
  ◌==◌, if◌then◌else◌,
}
use tinyfile.Common.Run.{ok, fault, out_of_fuel, Cmd, pure, ◌>>=◌, ◌>>◌, gets, modify}
use tinyfile.Types.{Request, Arg, SharedEntry, int_of_size}
use tinyfile.Api.{Api, Others, lock_resize, unlock_resize, entry_at, set_entry}
use tinyfile.Api.Shm.{Answers, resize_shm}

-- One round of `find_shared_entry`: what the world answers if this round resizes, and what others do
-- before the entry's mutex is taken.
pub record Round : Type 0 where
  pub resize : Answers
  pub others : Others

abbrev pub taken : Arg → SharedEntry
taken arg = record { used = true; done = false; arg = arg }

abbrev pub released : SharedEntry → SharedEntry
released e = record e { used = false; done = false }

-- The address that `is_request_done` computes its entry from, read under the resize lock.
locked_addr : Cmd Api ℕ
locked_addr = do lock_resize; base ← gets (λ s. s.shm_addr); unlock_resize; pure base

module _ (sizeof_entry : ℕ) where
  -- The top of a round: a resize when the walk comes to the middle.
  half_full : Answers → (shm_size idx : ℕ) → Cmd Api (Unit {0})
  half_full w shm_size idx =
      if idx == int_of_size (shm_size / 2) then (resize_shm sizeof_entry w >> pure tt) else pure tt

  -- The rest of a round: the entry is taken if it is free, and else `next` goes on behind it.
  look : (shm_size idx : ℕ) → Arg → (next : ℕ → Cmd Api ℕ) → Cmd Api ℕ
  look shm_size idx arg next = do
    e ← entry_at sizeof_entry idx
    if not e.used
        then (set_entry idx (taken arg) >> pure idx)
        else if int_of_size shm_size == 0
        then (λ _. fault)
        else next ((idx + 1) % int_of_size shm_size)

  -- `shm_size` is the number of entries at the start, which a resize in the loop does not change.
  pub find_loop : (shm_size : ℕ) → Arg → List Round → (idx : ℕ) → Cmd Api ℕ
  find_loop shm_size arg [] idx = λ _. out_of_fuel
  find_loop shm_size arg (r ∷ rest) idx = do
    half_full r.resize shm_size idx
    modify r.others
    look shm_size idx arg (find_loop shm_size arg rest)

  pub find_shared_entry : List Round → Arg → Cmd Api ℕ
  find_shared_entry rounds arg = do
    shm_size ← gets (λ s. s.mapped / sizeof_entry)
    find_loop shm_size arg rounds 0

  -- `some` is the result 1, with what goes to `*out`. The resize lock is given back before the entry
  -- is read: if others move the mapping in between, the old address is no longer mapped.
  pub is_request_done : Others → ℕ → Cmd Api (Option Arg)
  is_request_done others idx = do
    base ← locked_addr
    modify others
    addr ← gets (λ s. s.shm_addr)
    if not (base == addr) then (λ _. fault) else do
      e ← entry_at sizeof_entry idx
      if e.done then (set_entry idx (released e) >> pure (some e.arg)) else pure none

  -- The loop of `recv_response`: what goes to `*out`, and the sleeps in microseconds, in order.
  recv_loop : (backoff : ℕ) → List Others → ℕ → Cmd Api (Arg × List ℕ)
  recv_loop backoff [] idx = λ _. out_of_fuel
  recv_loop backoff (o ∷ rest) idx = do
    got ← is_request_done o idx
    let next = (backoff * 2) % 2 ^ 32
    elim got [
      | some out ↦ pure (out, [])
      | none ↦ (recv_loop next rest idx >>= λ (out, slept). pure (out, next ∷ slept))
    ]

  pub recv_response : List Others → ℕ → Cmd Api (Arg × List ℕ)
  recv_response rounds idx = recv_loop 1 rounds idx
