-- ===== src/Api/Entries/Find.antt =====
-- `find_shared_entry`: which entry a request gets.
use tinyfile.Common.{
  ℕ, zero, suc, ◌+◌, ◌/◌, ◌%◌, ◌^◌, ◌<◌, ◌≤◌, ◌≡◌, refl, true, false, some, List, [], ◌∷◌, arith,
  ltb, ◌==◌, length, get_elem?, set, inl, inr, ◌⊎◌, Bool-cases, Option-cases,
}
use native.Mathlib.Nat.{mod-eq_of_lt}
use tinyfile.Common.Run.{Run, ok, fault, Cmd, ◌>>◌, modify}
use tinyfile.Common.Returns.{then_run-ok}
use tinyfile.Common.Gives
use tinyfile.Common.Gives.{Gives, gives, returned}
use tinyfile.Types.{SharedEntry, Arg, int_of_size, size_of_int}
use tinyfile.Api.Shm.Resized.{resize_shm-limit}
use tinyfile.Api.{Api, entry_at, set_entry}
use tinyfile.Api.Shm.{Answers, resize_shm, new_shm_size}
use tinyfile.Api.Entries.{Round, taken, half_full, look, find_loop, find_shared_entry}

fault_ok : {S A : Type 0} {a : A} {s : S} → ¬ (fault ≡ ok a s)
fault_ok e = cc

-- What others do in the rounds, and a resize that returns in one of them, keep the property `P`.
abbrev pub Keeps : (sizeof_entry : ℕ) → (P : Api → Type 0) → List Round → Type 0
Keeps sizeof_entry P [] = Unit {0}
Keeps sizeof_entry P (r ∷ rest) =
    ((u : Api) → P u → P (r.others u))
    × ((u : Api) → P u → Gives (λ _ v. P v) (resize_shm sizeof_entry r.resize u))
    × Keeps sizeof_entry P rest

-- The entry `idx` was free in a state with the property `P`, and `t` differs from that state in that
-- entry alone, which now holds the argument and is marked as used and not done.
pub record Took (sizeof_entry : ℕ) (P : Api → Type 0) (arg : Arg) (idx : ℕ) (t : Api) : Type 0 where
  pub before : Api
  pub reached : P before
  pub entry : SharedEntry
  pub within : idx < before.mapped / sizeof_entry
  pub there : get_elem? before.entries idx ≡ some entry
  pub unused : entry.used ≡ false
  pub after : t ≡ record before {
    entries = set before.entries idx (record { used = true; done = false; arg = arg });
  }

module _ (sizeof_entry : ℕ) (P : Api → Type 0) (arg : Arg) where
  found :
      (idx : ℕ) (u : Api) (e : SharedEntry) {i : ℕ} {t : Api}
      → P u
      → idx < u.mapped / sizeof_entry
      → get_elem? u.entries idx ≡ some e
      → e.used ≡ false
      → ◌≡◌ {A = Run Api ℕ} (ok idx (record u { entries = set u.entries idx (taken arg) })) (ok i t)
      → Took sizeof_entry P arg i t
  found idx u e {i} {t} p w at free q =
      let same : idx ≡ i = cc in
      let left : t ≡ record u { entries = set u.entries idx (taken arg) } = cc in
      record {
        before = u;
        reached = p;
        entry = e;
        within = rw (← same) w;
        there = rw (← same) at;
        unused = free;
        after = rw (← same) left;
      }

  look-Took :
      (shm_size idx : ℕ) (next : ℕ → Cmd Api ℕ) (u : Api) {i : ℕ} {t : Api}
      → P u
      → ((j : ℕ) → next j u ≡ ok i t → Took sizeof_entry P arg i t)
      → look sizeof_entry shm_size idx arg next u ≡ ok i t
      → Took sizeof_entry P arg i t
  unfolding look entry_at set_entry
  look-Took shm_size idx next u p ih e = elim (Bool-cases (ltb idx (u.mapped / sizeof_entry))) [
    | inr past ↦ absurd (fault_ok (rw past at e))
    | inl inside ↦ elim (Option-cases (get_elem? u.entries idx)) [
      | inl none_there ↦ absurd (fault_ok (rw (inside, none_there) at e))
      | inr (x, there) ↦ elim (Bool-cases x.used) [
        | inl busy ↦ elim (Bool-cases (int_of_size shm_size == 0)) [
          | inl empty ↦ absurd (fault_ok (rw (inside, there, busy, empty) at e))
          | inr some_there ↦ ih _ (rw (inside, there, busy, some_there) at e)
        ]
        | inr free ↦ found idx u x p (ground arith) there free (rw (inside, there, free) at e)
      ]
    ]
  ]

  half_full-keeps :
      (w : Answers) (shm_size idx : ℕ) (u : Api)
      → P u
      → Gives (λ _ v. P v) (resize_shm sizeof_entry w u)
      → Gives (λ _ v. P v) (half_full sizeof_entry w shm_size idx u)
  unfolding half_full
  half_full-keeps w shm_size idx u p resize =
      elim (Bool-cases (idx == int_of_size (shm_size / 2))) [
        | inr off ↦ rw off (gives p)
        | inl middle ↦ rw middle (Gives.after resize λ _ v q. gives q)
      ]

  find_loop-Took :
      (shm_size : ℕ) (rounds : List Round) (idx : ℕ) (s : Api) {i : ℕ} {t : Api}
      → P s
      → Keeps sizeof_entry P rounds
      → find_loop sizeof_entry shm_size arg rounds idx s ≡ ok i t
      → Took sizeof_entry P arg i t
  unfolding find_loop
  find_loop-Took shm_size [] idx s p keeps e = cc
  find_loop-Took shm_size (r ∷ rest) idx s p (others, resize, keeps) e =
      let (_, u, half, e') =
        then_run-ok (half_full sizeof_entry r.resize shm_size idx s)
          (λ _.
            modify r.others
            >> look sizeof_entry shm_size idx arg (find_loop sizeof_entry shm_size arg rest))
          e in
      let there =
        others u (returned (half_full-keeps r.resize shm_size idx s p (resize s p)) half) in
      look-Took shm_size idx _ (r.others u) there
        (λ j. find_loop-Took shm_size rest j (r.others u) there keeps) e'

  -- If `find_shared_entry` returns an index, that entry was free in a state that the run had come to: one
  -- with every property `P` that the state at the start has and that what others do in the rounds and the
  -- resizes of the rounds keep. The state at the end is that state, with that entry taken for the argument
  -- and nothing else changed.
  pub find_shared_entry-Took :
      (rounds : List Round) (s : Api) {i : ℕ} {t : Api}
      → P s
      → Keeps sizeof_entry P rounds
      → find_shared_entry sizeof_entry rounds arg s ≡ ok i t
      → Took sizeof_entry P arg i t
  unfolding find_shared_entry
  find_shared_entry-Took rounds s p keeps e = find_loop-Took _ rounds 0 s p keeps e

abbrev pub IsBusy : Api → ℕ → Type 0
IsBusy s j = (e : SharedEntry) × (get_elem? s.entries j ≡ some e) × (e.used ≡ true)

-- Rounds in which no other thread and no server does anything, whatever a resize would be answered.
abbrev pub quiet : List Answers → List Round
quiet [] = []
quiet (w ∷ ws) = record { resize = w; others = λ s. s } ∷ quiet ws

module _ (sizeof_entry : ℕ) (arg : Arg) (s : Api) (i n : ℕ) (size : s.mapped / sizeof_entry ≡ n)
    (small : n < 2 ^ 31) (last : i < n) (e : SharedEntry) (at : get_elem? s.entries i ≡ some e)
    (free : e.used ≡ false) (busy : (j : ℕ) → j < i → IsBusy s j)
    (calm : (i < n / 2) ⊎ (size_of_int s.shm_max_size < new_shm_size sizeof_entry s)) where
  half_full-calm : (w : Answers) (idx : ℕ) → idx ≤ i → half_full sizeof_entry w n idx s ≡ ok tt s
  unfolding half_full
  half_full-calm w idx le = elim (Bool-cases (idx == int_of_size (n / 2))) [
    | inr off ↦ rw off
    | inl middle ↦ rw middle (elim calm [
      | inl before ↦ absurd (ground arith)
      | inr full ↦ rw (resize_shm-limit sizeof_entry w s full)
    ])
  ]

  look-free :
      (next : ℕ → Cmd Api ℕ)
      → look sizeof_entry n i arg next s ≡ ok i (record s { entries = set s.entries i (taken arg) })
  unfolding look entry_at set_entry
  look-free next =
      let inside : ltb i (s.mapped / sizeof_entry) ≡ true = ground arith in rw (inside, at, free)

  look-busy :
      (idx : ℕ) (next : ℕ → Cmd Api ℕ)
      → idx < i
      → look sizeof_entry n idx arg next s ≡ next (idx + 1) s
  unfolding look entry_at
  look-busy idx next lt =
      let (x, there, used) = busy idx lt in
      let inside : ltb idx (s.mapped / sizeof_entry) ≡ true = ground arith in
      let some_there : (int_of_size n == 0) ≡ false = ground arith in
      let step : (idx + 1) % int_of_size n ≡ idx + 1 =
        let whole : int_of_size n ≡ n = omega arith in rw whole (mod-eq_of_lt (omega arith)) in
      rw (inside, there, used, some_there, step)

  find_loop-first :
      (k idx : ℕ) (ws : List Answers)
      → idx + k ≡ i
      → k < length ws
      → find_loop sizeof_entry n arg (quiet ws) idx s
        ≡ ok i (record s { entries = set s.entries i (taken arg) })
  unfolding find_loop
  find_loop-first k idx [] sum fuel = absurd (omega arith)
  find_loop-first zero idx (w ∷ ws) sum fuel =
      let here : idx ≡ i = omega arith in rw (half_full-calm w idx (omega arith), here, look-free _)
  find_loop-first (suc k) idx (w ∷ ws) sum fuel =
      rw (half_full-calm w idx (omega arith), look-busy idx _ (omega arith))
        (find_loop-first k (idx + 1) ws (omega arith) (omega arith))

-- The entry `i` is the first free one, and stands before the middle of the mapping, or there is no room
-- for a resize.
pub record FreeAt (sizeof_entry i : ℕ) (s : Api) : Type 0 where
  pub entry : SharedEntry
  pub small : s.mapped / sizeof_entry < 2 ^ 31
  pub within : i < s.mapped / sizeof_entry
  pub there : get_elem? s.entries i ≡ some entry
  pub unused : entry.used ≡ false
  pub busy : (j : ℕ) → j < i → IsBusy s j
  pub calm :
      (i < s.mapped / sizeof_entry / 2) ⊎ (size_of_int s.shm_max_size < new_shm_size sizeof_entry s)

-- While no one else acts, `find_shared_entry` returns the first free entry, after one round for each
-- entry before it and one more, takes it for the argument and changes nothing else. The entry stands
-- before the middle of the mapping, or there is no room for a resize.
pub find_shared_entry-first :
    (sizeof_entry : ℕ) (arg : Arg) (s : Api) (i : ℕ) (ws : List Answers)
    → FreeAt sizeof_entry i s
    → i < length ws
    → find_shared_entry sizeof_entry (quiet ws) arg s
      ≡ ok i
          (record s { entries = set s.entries i (record { used = true; done = false; arg = arg }) })
unfolding find_shared_entry
find_shared_entry-first sizeof_entry arg s i ws f fuel =
    find_loop-first sizeof_entry arg s i (s.mapped / sizeof_entry) refl f.small f.within f.entry
      f.there f.unused f.busy f.calm i 0 ws (omega arith) fuel
