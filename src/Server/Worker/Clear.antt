-- ===== src/Server/Worker/Clear.antt =====
-- src/server/server.c: what `resize_shm` of the server makes of the entries.
use tinyfile.Common.{
  ℕ, zero, suc, ◌<◌, ◌≤◌, ◌≡◌, refl, some, List, [], ◌∷◌, arith, length, get_elem?, ap,
}
use tinyfile.Common.{◌/◌, ◌^◌, false}
use tinyfile.Common.Run.{ok}
use tinyfile.Types.{Arg, SharedEntry, minus_one, int_of_size, size_of_int}
use tinyfile.Server.Worker.{Work, blank, clear_from, resize_shm}

pub length-clear_from :
    (unset : Arg) (old : ℕ) (es : List SharedEntry) → length (clear_from unset old es) ≡ length es
unfolding clear_from
length-clear_from unset old [] = refl
length-clear_from unset zero (e ∷ es) = ap suc (length-clear_from unset zero es)
length-clear_from unset (suc old) (e ∷ es) = ap suc (length-clear_from unset old es)

pub clear_from-old :
    (unset : Arg) (old i : ℕ) (es : List SharedEntry)
    → i < old
    → get_elem? (clear_from unset old es) i ≡ get_elem? es i
unfolding clear_from
clear_from-old unset old i [] lt = refl
clear_from-old unset zero i (e ∷ es) lt = absurd (omega arith)
clear_from-old unset (suc old) zero (e ∷ es) lt = refl
clear_from-old unset (suc old) (suc i) (e ∷ es) lt = clear_from-old unset old i es (omega arith)

pub clear_from-new :
    (unset : Arg) (old i : ℕ) (es : List SharedEntry)
    → old ≤ i
    → i < length es
    → get_elem? (clear_from unset old es) i ≡ some (blank unset)
unfolding clear_from
clear_from-new unset old i [] le lt = absurd (omega arith)
clear_from-new unset zero zero (e ∷ es) le lt = refl
clear_from-new unset zero (suc i) (e ∷ es) le lt =
    clear_from-new unset zero i es (omega arith) (omega arith)
clear_from-new unset (suc old) zero (e ∷ es) le lt = absurd (omega arith)
clear_from-new unset (suc old) (suc i) (e ∷ es) le lt =
    clear_from-new unset old i es (omega arith) (omega arith)

-- The server's `resize_shm` of a mapping that an `int` can measure.
pub resize_shm-clear_from :
    (sizeof_entry size : ℕ) (unset : Arg) (s : Work)
    → s.mapped < 2 ^ 31
    → resize_shm sizeof_entry (some size) unset s
      ≡ ok (some minus_one) (record s {
        entries = clear_from unset (s.mapped / sizeof_entry) s.entries;
        mapped = size;
        stop_client_threads = false;
      })
unfolding resize_shm
resize_shm-clear_from sizeof_entry size unset s small =
    let whole : size_of_int (int_of_size s.mapped) ≡ s.mapped = ground (arith, small) in simp whole
