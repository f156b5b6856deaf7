-- ===== src/Api/Entries/Poll.antt =====
-- `is_request_done` and `recv_response`: how the client learns that its request is served.
use tinyfile.Common.{
  ℕ, zero, suc, ◌+◌, ◌-◌, ◌*◌, ◌/◌, ◌%◌, ◌^◌, ◌<◌, ◌≤◌, ◌≡◌, ◌≢◌, refl, true, false, none, some,
  List, [], ◌∷◌, ◌++◌, arith, ltb, ◌==◌, length, get_elem?, set, ap, replicate, ◌⊎◌,
}
use tinyfile.Common.Run.{ok, fault, blocked, then_run}
use tinyfile.Common.Returns
use tinyfile.Types.{SharedEntry, size_of_int}
use tinyfile.Api.{Api, Others, entry_at, set_entry, lock_resize, unlock_resize}
use tinyfile.Api.Shm.{Answers, resize_shm, new_shm_size}
use tinyfile.Api.Shm.Resized.{resize_shm-failed}
use tinyfile.Api.Entries.{locked_addr, is_request_done, recv_loop, recv_response}

-- The state with the resize lock free, and the entry `idx` mapped and equal to `e`.
pub record Shows (sizeof_entry idx : ℕ) (e : SharedEntry) (s : Api) : Type 0 where
  pub open_lock : s.shm_resize_lock ≡ false
  pub within : idx < s.mapped / sizeof_entry
  pub there : get_elem? s.entries idx ≡ some e

-- The state after the answer `e` in the entry `idx` has been taken.
abbrev pub taken_off : Api → ℕ → SharedEntry → Api
taken_off s idx e = record s {
  entries = set s.entries idx (record e { used = false; done = false });
}

-- The sleeps of `n` polls that fail, from `backoff` on.
abbrev pub sleeps : ℕ → ℕ → List ℕ
sleeps zero backoff = []
sleeps (suc n) backoff = (backoff * 2) % 2 ^ 32 ∷ sleeps n ((backoff * 2) % 2 ^ 32)

locked_addr-ok : (s : Api) → s.shm_resize_lock ≡ false → locked_addr s ≡ ok s.shm_addr s
unfolding locked_addr lock_resize unlock_resize
locked_addr-ok s free = ground arith

locked_addr-blocked : (s : Api) → s.shm_resize_lock ≡ true → locked_addr s ≡ blocked
unfolding locked_addr lock_resize
locked_addr-blocked s held = rw held

module _ (sizeof_entry idx : ℕ) where
  module _ (o : Others) (s : Api) (free : s.shm_resize_lock ≡ false)
      (stays : (o s).shm_addr ≡ s.shm_addr) (e : SharedEntry)
      (shows : Shows sizeof_entry idx e (o s)) where
    same_addr : (s.shm_addr == (o s).shm_addr) ≡ true
    same_addr = ground arith

    in_map : ltb idx ((o s).mapped / sizeof_entry) ≡ true
    in_map = ground (arith, shows.within)

    -- One poll, with what others do in it.
    pub is_request_done-done :
        e.done ≡ true
        → is_request_done sizeof_entry o idx s ≡ ok (some e.arg) (taken_off (o s) idx e)
    unfolding is_request_done entry_at set_entry
    is_request_done-done d = rw (locked_addr-ok s free, same_addr, in_map, shows.there, d)

    pub is_request_done-pending :
        e.done ≡ false → is_request_done sizeof_entry o idx s ≡ ok none (o s)
    unfolding is_request_done entry_at
    is_request_done-pending d = rw (locked_addr-ok s free, same_addr, in_map, shows.there, d)

  -- If another thread moves the mapping between the unlock and the read, the poll reads memory that
  -- is no longer mapped.
  pub is_request_done-moved :
      (o : Others) (s : Api)
      → s.shm_resize_lock ≡ false
      → (o s).shm_addr ≢ s.shm_addr
      → is_request_done sizeof_entry o idx s ≡ fault
  unfolding is_request_done
  is_request_done-moved o s free moved =
      let other : (s.shm_addr == (o s).shm_addr) ≡ false = ground arith in
      rw (locked_addr-ok s free, other)

  -- After a resize that failed in `shm_open` or `mmap`, every poll waits for ever.
  pub resize_shm-is_request_done :
      (w : Answers) (o : Others) (s : Api)
      → new_shm_size sizeof_entry s ≤ size_of_int s.shm_max_size
      → s.shm_resize_lock ≡ false
      → (w.shm_open ≡ none) ⊎ (w.mmap ≡ none)
      → then_run (resize_shm sizeof_entry w s) (λ _. is_request_done sizeof_entry o idx) ≡ blocked
  unfolding is_request_done
  resize_shm-is_request_done w o s fits free failed =
      Returns.chain_eq (λ _. is_request_done sizeof_entry o idx) blocked
        (resize_shm-failed sizeof_entry w s fits free failed)
        λ _ t (_, held, _). rw (locked_addr-blocked t held)

  recv_loop-first :
      (n backoff : ℕ) (o : Others) (rest : List Others) (s : Api) (pending e : SharedEntry)
      → Shows sizeof_entry idx pending s
      → pending.done ≡ false
      → (o s).shm_addr ≡ s.shm_addr
      → Shows sizeof_entry idx e (o s)
      → e.done ≡ true
      → recv_loop sizeof_entry backoff (replicate n (λ u. u) ++ (o ∷ rest)) idx s
        ≡ ok (e.arg, sleeps n backoff) (taken_off (o s) idx e)
  unfolding recv_loop
  recv_loop-first zero backoff o rest s pending e now wait stays later d =
      rw (is_request_done-done o s now.open_lock stays e later d)
  recv_loop-first (suc n) backoff o rest s pending e now wait stays later d = rw (
    is_request_done-pending (λ u. u) s now.open_lock refl pending now wait,
    recv_loop-first n ((backoff * 2) % 2 ^ 32) o rest s pending e now wait stays later d,
  )

  -- If the entry is not served for `n` polls and is then served by others, who leave the mapping where
  -- it is, `recv_response` returns at the next poll. It gives the entry's argument, as the server has
  -- left it, sleeps for the `n` doubled back-offs, and frees that entry and changes nothing else.
  pub recv_response-first :
      (n : ℕ) (o : Others) (rest : List Others) (s : Api) (pending e : SharedEntry)
      → Shows sizeof_entry idx pending s
      → pending.done ≡ false
      → (o s).shm_addr ≡ s.shm_addr
      → Shows sizeof_entry idx e (o s)
      → e.done ≡ true
      → recv_response sizeof_entry (replicate n (λ u. u) ++ (o ∷ rest)) idx s
        ≡ ok (e.arg, sleeps n 1) (taken_off (o s) idx e)
  unfolding recv_response
  recv_response-first n = recv_loop-first n 1

-- The back-off after `k` doublings of an `unsigned int`.
doubled : ℕ → ℕ → ℕ
doubled zero backoff = backoff
doubled (suc k) backoff = doubled k ((backoff * 2) % 2 ^ 32)

doubled-add : (m j k backoff : ℕ) → k ≡ m + j → doubled k backoff ≡ doubled j (doubled m backoff)
unfolding doubled
doubled-add zero j k backoff e = let same : k ≡ j = omega arith in rw same
doubled-add (suc m) j zero backoff e = absurd (omega arith)
doubled-add (suc m) j (suc k) backoff e = doubled-add m j k ((backoff * 2) % 2 ^ 32) (omega arith)

length-sleeps : (n backoff : ℕ) → length (sleeps n backoff) ≡ n
length-sleeps zero backoff = refl
length-sleeps (suc n) backoff = ap suc (length-sleeps n ((backoff * 2) % 2 ^ 32))

doubled-zero : (k : ℕ) → doubled k 0 ≡ 0
unfolding doubled
doubled-zero zero = refl
doubled-zero (suc k) = doubled-zero k

sleeps-doubled :
    (n backoff k : ℕ) → k < n → get_elem? (sleeps n backoff) k ≡ some (doubled (suc k) backoff)
unfolding doubled
sleeps-doubled zero backoff k lt = absurd (omega arith)
sleeps-doubled (suc n) backoff zero lt = refl
sleeps-doubled (suc n) backoff (suc k) lt =
    sleeps-doubled n ((backoff * 2) % 2 ^ 32) k (omega arith)

-- From the 32nd failing poll on, `recv_response` no longer sleeps: the doubled back-off is 0.
pub sleeps-wrap : (n k : ℕ) → 31 ≤ k → k < n → get_elem? (sleeps n 1) k ≡ some 0
unfolding doubled
sleeps-wrap n k le lt =
    rw (sleeps-doubled n 1 k lt, doubled-add 32 (k - 31) (suc k) 1 (omega arith), doubled-zero)

-- `recv_response` on an entry that is served after `n` polls sleeps once after each of them, and from the
-- 32nd sleep on for 0 microseconds, since the doubled back-off of 32 bits has become 0.
pub recv_response-busy :
    (sizeof_entry idx n : ℕ) (o : Others) (rest : List Others) (s : Api) (pending e : SharedEntry)
    → Shows sizeof_entry idx pending s
    → pending.done ≡ false
    → (o s).shm_addr ≡ s.shm_addr
    → Shows sizeof_entry idx e (o s)
    → e.done ≡ true
    → (slept : List ℕ) × (recv_response sizeof_entry (replicate n (λ u. u) ++ (o ∷ rest)) idx s
        ≡ ok (e.arg, slept) (taken_off (o s) idx e))
      × (length slept ≡ n)
      × ((k : ℕ) → 31 ≤ k → k < n → get_elem? slept k ≡ some 0)
recv_response-busy sizeof_entry idx n o rest s pending e now wait stays later d = (
  sleeps n 1,
  recv_response-first sizeof_entry idx n o rest s pending e now wait stays later d,
  length-sleeps n 1,
  sleeps-wrap n,
)
