-- ===== src/System/Resize.antt =====
-- A resize that both sides carry out.
use tinyfile.Common.{
  List, ℕ, ◌+◌, ◌/◌, ◌<◌, ◌≤◌, ◌≡◌, refl, false, some, arith, length, get_elem?, ◌∙◌,
}
use native.Mathlib.Nat.{mul-div_left}
use tinyfile.Common.Run.{ok}
use tinyfile.Types.{Arg, SharedEntry, minus_one, size_of_int}
use tinyfile.Server.Compress.{Disk}
use tinyfile.System.{view, resized}
use tinyfile.Server.Worker.{blank, clear_from}
use tinyfile.Server.Worker.Clear.{
  length-clear_from, clear_from-old, clear_from-new, resize_shm-clear_from,
}
use tinyfile.Api.{Api}
use tinyfile.Api.Shm.{Answers, truncate, new_shm_size, resize_shm}
use tinyfile.Api.Shm.Resized.{
  length-truncate, get_elem?-truncate, IsMapped, grown, resize_shm-grown, new_shm_size-eq,
  mapped-div, grown-IsMapped,
}

-- The number of entries after a resize.
abbrev pub new_count : ℕ → Api → ℕ
new_count sizeof_entry s = length s.entries + s.shm_size / sizeof_entry

-- The server clears what stands behind the entries that the client had.
resized-clear_from :
    (sizeof_entry : ℕ) (unset : Arg) (disk : Disk) (s : Api) (es : List SharedEntry)
    → 0 < sizeof_entry
    → IsMapped sizeof_entry s
    → resized sizeof_entry unset disk s es ≡ clear_from unset (length s.entries) es
unfolding resized
resized-clear_from e unset disk s es pos is = rw (
  resize_shm-clear_from e (new_shm_size e s) unset (record (view s disk) { entries = es }) is.small,
  mapped-div e pos s is,
)

-- A resize within the limit, of which both sides carry out their half: the client's call returns 0 and
-- starts the worker again, the invariant holds, the old entries are kept, and each of the new ones is
-- neither used nor done.
pub resize_shm-both :
    (sizeof_entry : ℕ) (w : Answers) (s : Api) (unset : Arg) (disk : Disk) (fd addr : ℕ)
    → 0 < sizeof_entry
    → IsMapped sizeof_entry s
    → new_shm_size sizeof_entry s ≤ size_of_int s.shm_max_size
    → w.shm_open ≡ some fd
    → w.mmap ≡ some addr
    → w.response_id ≡ minus_one
    → w.server ≡ resized sizeof_entry unset disk s
    → (t : Api) × (resize_shm sizeof_entry w s ≡ ok 0 t)
      × IsMapped sizeof_entry t
      × (t.requests.stop_worker ≡ false)
      × ((i : ℕ) → i < length s.entries → get_elem? t.entries i ≡ get_elem? s.entries i)
      × ((i : ℕ)
          → length s.entries ≤ i
          → i < new_count sizeof_entry s
          → get_elem? t.entries i ≡ some (blank unset))
resize_shm-both e w s unset disk fd addr pos is fits opened mapped answer server =
    let count : new_shm_size e s / e ≡ new_count e s =
      rw (new_shm_size-eq e pos s is) (mul-div_left (new_count e s) pos) in
    let cleared : (es : List SharedEntry) → w.server es ≡ clear_from unset (length s.entries) es =
      λ es. rw server (resized-clear_from e unset disk s es pos is) in
    (
      grown e w fd addr s,
      resize_shm-grown e w s fd addr fits is.open_lock opened mapped answer,
      grown-IsMapped e pos s is w fd addr fits (λ xs. rw cleared (length-clear_from unset _ xs)),
      refl,
      λ i lt.
          rw (cleared, count)
            (clear_from-old unset (length s.entries) i _ lt
              ∙ get_elem?-truncate (new_count e s) i s.entries lt (omega arith)),
      λ i le lt.
          rw (cleared, count)
            (clear_from-new unset (length s.entries) i (truncate (new_count e s) s.entries) le
              (omega (arith, length-truncate (new_count e s) s.entries))),
    )
