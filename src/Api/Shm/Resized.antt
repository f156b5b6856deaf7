-- ===== src/Api/Shm/Resized.antt =====
-- src/api/api.c: `resize_shm` and `tinyfile_set_shm_size`, on the state that they leave.
use tinyfile.Common.{
  ℕ, zero, suc, ◌+◌, ◌*◌, ◌/◌, ◌%◌, ◌^◌, ◌<◌, ◌≤◌, ◌≡◌, refl, true, false, none, some, List, [],
  ◌∷◌, arith, ltb, length, get_elem?, ap, sym, ◌∙◌, inl, inr, ◌⊎◌, Option-cases, Bool-cases,
}
use native.Mathlib.Nat.{mul-div_left, div-mul-le_self, mod-eq_of_lt, lt-div-mul-add}
use tinyfile.Common.Run.{ok}
use tinyfile.Common.Gives.{Gives, gives, blocks}
use tinyfile.Common.Returns.{Returns, returns}
use tinyfile.Types.{SharedEntry, minus_one, size_of_int}
use tinyfile.Api.{Api, lock_resize, unlock_resize, set_shm_size}
use tinyfile.Api.Shm.{
  truncate, Answers, resize_shm_error, set_stop_worker, send_resize, adopt, exchange, new_shm_size,
  remap, resize_shm,
}

pub length-truncate : (n : ℕ) (xs : List SharedEntry) → length (truncate n xs) ≡ n
unfolding truncate
length-truncate zero xs = refl
length-truncate (suc n) [] = ap suc (length-truncate n [])
length-truncate (suc n) (x ∷ xs) = ap suc (length-truncate n xs)

-- A longer object keeps its entries.
pub get_elem?-truncate :
    (n i : ℕ) (xs : List SharedEntry)
    → i < length xs
    → i < n
    → get_elem? (truncate n xs) i ≡ get_elem? xs i
unfolding truncate
get_elem?-truncate zero i xs h k = absurd (omega arith)
get_elem?-truncate (suc n) i [] h k = absurd (omega arith)
get_elem?-truncate (suc n) zero (x ∷ xs) h k = refl
get_elem?-truncate (suc n) (suc i) (x ∷ xs) h k =
    get_elem?-truncate n i xs (omega arith) (omega arith)

-- The server that a client relies on keeps the object's length.
abbrev pub KeepsLength : (List SharedEntry → List SharedEntry) → Type 0
KeepsLength f = (xs : List SharedEntry) → length (f xs) ≡ length xs

module _ (sizeof_entry : ℕ) where
  -- The client maps the whole object and nobody holds the lock; the limits are positive `int`s.
  pub record IsMapped (s : Api) : Type 0 where
    pub whole : s.mapped ≡ length s.entries * sizeof_entry
    pub small : s.mapped < 2 ^ 31
    pub positive : s.shm_size < 2 ^ 31
    pub positive_max : s.shm_max_size < 2 ^ 31
    pub open_lock : s.shm_resize_lock ≡ false

  -- A resize that would go past the limit does nothing.
  pub resize_shm-limit :
      (w : Answers) (s : Api)
      → size_of_int s.shm_max_size < new_shm_size sizeof_entry s
      → resize_shm sizeof_entry w s ≡ ok 0 s
  unfolding resize_shm
  resize_shm-limit w s h =
      let past : ltb (size_of_int s.shm_max_size) (new_shm_size sizeof_entry s) ≡ true =
        ground arith in
      rw past

  -- A resize that the system and the server carry out.
  abbrev pub grown : Answers → ℕ → ℕ → Api → Api
  grown w fd addr s = record s {
    shm_addr = addr;
    mapped = new_shm_size sizeof_entry s;
    shm_fd = fd;
    shm_resize_lock = false;
    entries = w.server (truncate (new_shm_size sizeof_entry s / sizeof_entry) s.entries);
    sent = (record (w.unset) { request_id = minus_one }, 100) ∷ s.sent;
    requests = record (s.requests) { stop_worker = false };
  }

  pub resize_shm-grown :
      (w : Answers) (s : Api) (fd addr : ℕ)
      → new_shm_size sizeof_entry s ≤ size_of_int s.shm_max_size
      → s.shm_resize_lock ≡ false
      → w.shm_open ≡ some fd
      → w.mmap ≡ some addr
      → w.response_id ≡ minus_one
      → resize_shm sizeof_entry w s ≡ ok 0 (grown w fd addr s)
  unfolding resize_shm remap exchange adopt send_resize set_stop_worker lock_resize unlock_resize
  resize_shm-grown w s fd addr fits free opened mapped answer =
      let within : ltb (size_of_int s.shm_max_size) (new_shm_size sizeof_entry s) ≡ false =
        ground arith in
      simp (within, free, opened, mapped, answer)

module _ (sizeof_entry : ℕ) (pos : 0 < sizeof_entry) (s : Api) (is : IsMapped sizeof_entry s) where
  pub mapped-div : s.mapped / sizeof_entry ≡ length s.entries
  mapped-div = rw is.whole (mul-div_left (length s.entries) pos)

  -- In entries, a resize adds as many as the library starts with; nothing wraps around.
  pub new_shm_size-eq :
      new_shm_size sizeof_entry s ≡ (length s.entries + s.shm_size / sizeof_entry) * sizeof_entry
  unfolding new_shm_size
  new_shm_size-eq =
      let size : size_of_int s.shm_size ≡ s.shm_size = ground (arith, is.positive) in
      let added = div-mul-le_self s.shm_size sizeof_entry in
      rw (mapped-div, size) (mod-eq_of_lt (omega (arith, is.whole, is.small, is.positive, added)))

  past : (n : ℕ) → 0 < n → n ≡ s.shm_size / sizeof_entry → s.shm_size < (n + n) * sizeof_entry
  past n one e =
      let below : s.shm_size < n * sizeof_entry + sizeof_entry =
        rw e (lt-div-mul-add {a = s.shm_size} pos) in
      let least : 1 * sizeof_entry ≤ n * sizeof_entry = grind arith in omega arith

  resize_shm-never :
      (w : Answers)
      → s.shm_max_size ≡ s.shm_size
      → length s.entries ≡ s.shm_size / sizeof_entry
      → 0 < length s.entries
      → resize_shm sizeof_entry w s ≡ ok 0 s
  resize_shm-never w same full one =
      let max : size_of_int s.shm_max_size ≡ s.shm_size = ground (arith, is.positive_max) in
      resize_shm-limit sizeof_entry w s
        (rw (max, new_shm_size-eq, full) (past _ (omega arith) refl))

  -- A resize that is carried out keeps the invariant.
  pub grown-IsMapped :
      (w : Answers) (fd addr : ℕ)
      → new_shm_size sizeof_entry s ≤ size_of_int s.shm_max_size
      → KeepsLength w.server
      → IsMapped sizeof_entry (grown sizeof_entry w fd addr s)
  grown-IsMapped w fd addr fits keeps = record {
    whole = rw (keeps _, length-truncate _ s.entries, new_shm_size-eq, mul-div_left _ pos);
    small = ground (arith, is.positive_max);
    positive = is.positive;
    positive_max = is.positive_max;
    open_lock = refl;
  }

-- If `shm_open` or `mmap` fails, `resize_shm` returns its error with `shm_resize_lock` held and the
-- worker stopped.
pub resize_shm-failed :
    (sizeof_entry : ℕ) (w : Answers) (s : Api)
    → new_shm_size sizeof_entry s ≤ size_of_int s.shm_max_size
    → s.shm_resize_lock ≡ false
    → (w.shm_open ≡ none) ⊎ (w.mmap ≡ none)
    → Returns
        (λ code t.
          (code ≡ resize_shm_error) × (t.shm_resize_lock ≡ true) × (t.requests.stop_worker ≡ true))
        (resize_shm sizeof_entry w s)
unfolding resize_shm remap set_stop_worker lock_resize
resize_shm-failed e w s fits free failed =
    let within : ltb (size_of_int s.shm_max_size) (new_shm_size e s) ≡ false = ground arith in
    elim (Option-cases w.shm_open) [
      | inl closed ↦ simp (within, free, closed) (returns (refl, refl, refl))
      | inr (fd, opened) ↦ elim failed [
        | inl closed ↦ simp (within, free, closed) (returns (refl, refl, refl))
        | inr unmapped ↦ simp (within, free, opened, unmapped) (returns (refl, refl, refl))
      ]
    ]

-- After `tinyfile_set_shm_size`, a client that maps as many entries as it asked for never resizes, whatever
-- the system would answer: `resize_shm` returns 0 and changes nothing.
pub set_shm_size-resize_shm :
    (sizeof_entry size : ℕ) (w : Answers) (s : Api)
    → 0 < sizeof_entry
    → size < 2 ^ 31
    → IsMapped sizeof_entry (set_shm_size size s)
    → length s.entries ≡ size / sizeof_entry
    → 0 < length s.entries
    → resize_shm sizeof_entry w (set_shm_size size s) ≡ ok 0 (set_shm_size size s)
unfolding set_shm_size
set_shm_size-resize_shm e size w s pos small is count one =
    let whole : size % 2 ^ 32 ≡ size = mod-eq_of_lt (omega arith) in
    resize_shm-never e pos (set_shm_size size s) is w refl (count ∙ ap (λ n. n / e) (sym whole)) one

-- If `shm_open` fails, a resize that returns leaves the entries alone.
pub resize_shm-unopened :
    (sizeof_entry : ℕ) (w : Answers) (s : Api)
    → w.shm_open ≡ none
    → Gives (λ _ t. t.entries ≡ s.entries) (resize_shm sizeof_entry w s)
unfolding resize_shm set_stop_worker lock_resize
resize_shm-unopened size w s fails =
    elim (Bool-cases (ltb (size_of_int s.shm_max_size) (new_shm_size size s))) [
      | inl past ↦ rw past (gives refl)
      | inr within ↦ elim (Bool-cases s.shm_resize_lock) [
        | inl held ↦ rw (within, held) blocks
        | inr open_lock ↦ rw (within, open_lock, fails) (gives refl)
      ]
    ]
