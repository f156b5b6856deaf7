-- ===== src/Api/Requests/Join.antt =====
-- `tinyfile_async_join` of requests that the server has served.
use tinyfile.Common.{
  ℕ, zero, suc, ◌+◌, ◌%◌, ◌^◌, ◌<◌, ◌≤◌, ◌≡◌, ◌≢◌, refl, Bool, true, false, some, List, [], ◌∷◌,
  arith, ltb, leb, ◌==◌, length, get_elem?, set, replicate, get_elem?-set_self, get_elem?-set_ne,
  length-set, Bool-cases, inl, inr, ◌∙◌,
}
use native.Mathlib.Nat.{mod-eq_of_lt}
use tinyfile.Common.Run.{ok}
use tinyfile.Common.Returns
use tinyfile.Common.Returns.{Returns, returns}
use tinyfile.Types.{Arg, SharedEntry}
use tinyfile.Api.{Api}
use tinyfile.Api.Entries.{released}
use tinyfile.Api.Entries.Poll.{Shows, taken_off, is_request_done-done}
use tinyfile.Api.Requests.{join_loop, tinyfile_async_join}

module _ (sizeof_entry n : ℕ) (idxs : List ℕ) (ix : ℕ → ℕ) (en : ℕ → SharedEntry) where
  -- The `n` requests have entries of their own, the request `j` the entry `ix j`.
  pub record AreApart : Type 0 where
    pub at : (j : ℕ) → j < n → get_elem? idxs j ≡ some (ix j)
    pub apart : (j k : ℕ) → j < n → k < n → j ≢ k → ix j ≢ ix k

  -- The requests before `i` are joined, and the others are served.
  record Joined (i : ℕ) (flags : List Bool) (outs : List Arg) (s : Api) : Type 0 where
    open_flags : (j : ℕ) → i ≤ j → j < n → get_elem? flags j ≡ some false
    size : length outs ≡ n
    filled : (j : ℕ) → j < i → get_elem? outs j ≡ some (en j).arg
    served : (j : ℕ) → i ≤ j → j < n → Shows sizeof_entry (ix j) (en j) s × ((en j).done ≡ true)
    freed : (j : ℕ) → j < i → get_elem? s.entries (ix j) ≡ some (released (en j))

  there_is : (outs : List Arg) (i : ℕ) → i < length outs → (a : Arg) × (get_elem? outs i ≡ some a)
  there_is [] i lt = absurd (omega arith)
  there_is (a ∷ outs) zero lt = (a, refl)
  there_is (a ∷ outs) (suc i) lt = there_is outs i (omega arith)

  Joined-next :
      (i : ℕ) (flags : List Bool) (outs : List Arg) (s : Api)
      → AreApart
      → i < n
      → Joined i flags outs s
      → Joined (suc i) (set flags i true) (set outs i (en i).arg) (taken_off s (ix i) (en i))
  Joined-next i flags outs s apart lt b = record {
    open_flags = λ j le last.
        get_elem?-set_ne flags i j true (omega arith) ∙ b.open_flags j (omega arith) last;
    size = length-set outs i _ ∙ b.size;
    filled = λ j before. elim (Bool-cases (j == i)) [
      | inl same ↦
          let here : j ≡ i = ground arith in
          let (a, there) = there_is outs i (omega (arith, b.size)) in
          rw here (get_elem?-set_self outs i _ there)
      | inr other ↦
          let off : j ≢ i = ground arith in
          get_elem?-set_ne outs i j _ (omega (arith, off)) ∙ b.filled j (omega (arith, off))
    ];
    served = λ j le last.
        let (shows, done) = b.served j (omega arith) last in
        (
          record {
            open_lock = shows.open_lock;
            within = shows.within;
            there =
                get_elem?-set_ne s.entries (ix i) (ix j) _ (apart.apart i j lt last (omega arith))
                ∙ shows.there;
          },
          done,
        );
    freed = λ j before. elim (Bool-cases (j == i)) [
      | inl same ↦
          let here : j ≡ i = ground arith in
          rw here (get_elem?-set_self s.entries (ix i) _ (b.served i (omega arith) lt).0.there)
      | inr other ↦
          let off : j ≢ i = ground arith in
          get_elem?-set_ne s.entries (ix i) (ix j) _
            (apart.apart i j lt (omega arith) (omega (arith, off)))
          ∙ b.freed j (omega (arith, off))
    ];
  }

  -- Each request's answer is given, and its entry is free again.
  pub record AllJoined (outs : List Arg) (s : Api) : Type 0 where
    pub filled : (j : ℕ) → j < n → get_elem? outs j ≡ some (en j).arg
    pub freed : (j : ℕ) → j < n → get_elem? s.entries (ix j) ≡ some (released (en j))

  -- The round for the request `i`.
  join_loop-round :
      (k i : ℕ) (flags : List Bool) (outs : List Arg) (s : Api)
      → AreApart
      → i < n
      → Joined i flags outs s
      → join_loop sizeof_entry (replicate (suc k) (λ u. u)) idxs n flags outs i i s
        ≡ join_loop sizeof_entry
            (replicate k (λ u. u))
            idxs
            n
            (set flags i true)
            (set outs i (en i).arg)
            (i + 1)
            ((i + 1) % n)
            (taken_off s (ix i) (en i))
  unfolding join_loop
  join_loop-round k i flags outs s apart lt b =
      let more : ltb i n ≡ true = ground arith in
      let (shows, done) = b.served i (omega arith) lt in
      rw (
        more,
        b.open_flags i (omega arith) lt,
        apart.at i lt,
        is_request_done-done sizeof_entry (ix i) (λ u. u) s shows.open_lock refl (en i) shows done,
      )

  join_loop-end :
      (p : ℕ) (flags : List Bool) (outs : List Arg) (s : Api)
      → join_loop sizeof_entry [] idxs n flags outs n p s ≡ ok outs s
  unfolding join_loop
  join_loop-end p flags outs s = let full : ltb n n ≡ false = ground arith in rw full

  join_loop-AllJoined :
      (k i p : ℕ) (flags : List Bool) (outs : List Arg) (s : Api)
      → AreApart
      → i + k ≡ n
      → (0 < k → p ≡ i)
      → Joined i flags outs s
      → Returns AllJoined (join_loop sizeof_entry (replicate k (λ u. u)) idxs n flags outs i p s)
  join_loop-AllJoined zero i p flags outs s apart sum place b =
      let all : i ≡ n = omega arith in
      rw (all, join_loop-end p flags outs s)
        (returns (record {
          filled = λ j lt. b.filled j (omega arith);
          freed = λ j lt. b.freed j (omega arith);
        }))
  join_loop-AllJoined (suc k) i p flags outs s apart sum place b =
      let here : p ≡ i = place (omega arith) in
      let next : i + 1 ≡ suc i = omega arith in
      rw (here, join_loop-round k i flags outs s apart (omega arith) b, next)
        (join_loop-AllJoined k (suc i) (suc i % n) (set flags i true) (set outs i (en i).arg)
          (taken_off s (ix i) (en i)) apart (omega arith) (λ left. mod-eq_of_lt (omega arith))
          (Joined-next i flags outs s apart (omega arith) b))

  get_elem?-replicate : (m j : ℕ) (b : Bool) → j < m → get_elem? (replicate m b) j ≡ some b
  get_elem?-replicate zero j b lt = absurd (omega arith)
  get_elem?-replicate (suc m) zero b lt = refl
  get_elem?-replicate (suc m) (suc j) b lt = get_elem?-replicate m j b (omega arith)

  -- `tinyfile_async_join` of between 1 and 2 ^ 31 - 1 requests, which have entries of their own and are all
  -- served, returns after one round for each while no one else acts: it gives each request's answer in
  -- its place, and frees every one of their entries.
  pub tinyfile_async_join-AllJoined :
      (outs : List Arg) (s : Api)
      → 0 < n
      → n < 2 ^ 31
      → AreApart
      → length outs ≡ n
      → ((j : ℕ) → j < n → Shows sizeof_entry (ix j) (en j) s × ((en j).done ≡ true))
      → Returns
          (λ got t. (filled : List Arg) × (got ≡ some filled) × AllJoined filled t)
          (tinyfile_async_join sizeof_entry (replicate n (λ u. u)) idxs n outs s)
  unfolding tinyfile_async_join
  tinyfile_async_join-AllJoined outs s pos small apart size served =
      let some_there : (n == 0) ≡ false = ground arith in
      let positive : leb (2 ^ 31) n ≡ false = ground arith in
      rw (some_there, positive)
        (Returns.chain
          (join_loop-AllJoined n 0 0 (replicate n false) outs s apart (omega arith) (λ left. refl)
            (record {
              open_flags = λ j le last. get_elem?-replicate n j false last;
              size = size;
              filled = λ j before. absurd (omega arith);
              served = λ j le last. served j last;
              freed = λ j before. absurd (omega arith);
            }))
          λ filled t all. returns (filled, refl, all))
