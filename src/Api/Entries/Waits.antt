-- ===== src/Api/Entries/Waits.antt =====
-- `recv_response` on an entry that is not served.
use tinyfile.Common.{
  ℕ, zero, suc, ◌*◌, ◌%◌, ◌^◌, ◌≡◌, refl, true, false, List, [], ◌∷◌, ◌++◌, replicate,
}
use tinyfile.Common.Run.{ok, out_of_fuel}
use tinyfile.Types.{SharedEntry}
use tinyfile.Api.{Api, Others}
use tinyfile.Api.Entries.{recv_loop, recv_response}
use tinyfile.Api.Entries.Poll.{Shows, taken_off, is_request_done-done, is_request_done-pending}

-- The client polls as often as it is let to, if the entry is not served.
module _ (sizeof_entry idx : ℕ) (pending : SharedEntry) (waits : pending.done ≡ false) where
  recv_loop-waits :
      (n backoff : ℕ) (s : Api)
      → Shows sizeof_entry idx pending s
      → recv_loop sizeof_entry backoff (replicate n (λ u. u)) idx s ≡ out_of_fuel
  unfolding recv_loop
  recv_loop-waits zero backoff s shows = refl
  recv_loop-waits (suc n) backoff s shows =
      rw
        (
          is_request_done-pending sizeof_entry idx (λ u. u) s shows.open_lock refl pending shows
              waits,
          recv_loop-waits n ((backoff * 2) % 2 ^ 32) s shows,
        )
        refl

  recv_loop-unserved :
      (m n backoff : ℕ) (o : Others) (s : Api)
      → Shows sizeof_entry idx pending s
      → (o s).shm_addr ≡ s.shm_addr
      → Shows sizeof_entry idx pending (o s)
      → recv_loop sizeof_entry backoff (replicate m (λ u. u) ++ (o ∷ replicate n (λ u. u))) idx s
        ≡ out_of_fuel
  unfolding recv_loop
  recv_loop-unserved zero n backoff o s now stays later =
      rw
        (
          is_request_done-pending sizeof_entry idx o s now.open_lock stays pending later waits,
          recv_loop-waits n ((backoff * 2) % 2 ^ 32) (o s) later,
        )
        refl
  recv_loop-unserved (suc m) n backoff o s now stays later =
      rw
        (
          is_request_done-pending sizeof_entry idx (λ u. u) s now.open_lock refl pending now waits,
          recv_loop-unserved m n ((backoff * 2) % 2 ^ 32) o s now stays later,
        )
        refl

  -- After any number of polls, it is still polling.
  pub recv_response-unserved :
      (m n : ℕ) (o : Others) (s : Api)
      → Shows sizeof_entry idx pending s
      → (o s).shm_addr ≡ s.shm_addr
      → Shows sizeof_entry idx pending (o s)
      → recv_response sizeof_entry (replicate m (λ u. u) ++ (o ∷ replicate n (λ u. u))) idx s
        ≡ out_of_fuel
  unfolding recv_response
  recv_response-unserved m n = recv_loop-unserved m n 1

-- An entry that is already served is taken at the first poll.
pub recv_response-at_once :
    (sizeof_entry idx : ℕ) (rest : List Others) (s : Api) (e : SharedEntry)
    → Shows sizeof_entry idx e s
    → e.done ≡ true
    → recv_response sizeof_entry ((λ u. u) ∷ rest) idx s ≡ ok (e.arg, []) (taken_off s idx e)
unfolding recv_response recv_loop
recv_response-at_once size idx rest s e shows served =
    rw (is_request_done-done size idx (λ u. u) s shows.open_lock refl e shows served) refl
