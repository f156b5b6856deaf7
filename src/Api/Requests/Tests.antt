-- ===== src/Api/Requests/Tests.antt =====
-- Two served requests, at which the theorem on their join applies.
use tinyfile.Common.{
  ℕ, zero, suc, ◌+◌, ◌<◌, ◌≡◌, refl, true, some, List, [], ◌∷◌, arith, get_elem?, replicate,
}
use tinyfile.Common.Returns.{Returns}
use tinyfile.Types.{Arg, SharedEntry}
use tinyfile.Api.{Api}
use tinyfile.Api.Entries.Poll.{Shows}
use tinyfile.Api.Requests.{tinyfile_async_join}
use tinyfile.Api.Requests.Join.{AreApart, AllJoined, tinyfile_async_join-AllJoined}
use tinyfile.Api.Tests.{arg_of, entry_of, four_entries}

abbrev served_entry : ℕ → SharedEntry
served_entry j = entry_of true true (arg_of (97 + j))

abbrev two_served : Api
two_served = record four_entries { entries = served_entry 0 ∷ served_entry 1 ∷ [] }

two_idxs-at : (j : ℕ) → j < 2 → get_elem? (0 ∷ 1 ∷ []) j ≡ some j
two_idxs-at zero lt = refl
two_idxs-at (suc zero) lt = refl
two_idxs-at (suc (suc j)) lt = absurd (omega arith)

two_idxs-AreApart : AreApart 100 2 (0 ∷ 1 ∷ []) (λ j. j) served_entry
two_idxs-AreApart = record { at = two_idxs-at; apart = λ j k lt_j lt_k ne. ne }

two_served-Shows :
    (j : ℕ) → j < 2 → Shows 100 j (served_entry j) two_served × ((served_entry j).done ≡ true)
two_served-Shows zero lt = (record { open_lock = refl; within = omega arith; there = refl }, refl)
two_served-Shows (suc zero) lt =
    (record { open_lock = refl; within = omega arith; there = refl }, refl)
two_served-Shows (suc (suc j)) lt = absurd (omega arith)

tinyfile_async_join-AllJoined_example :
    Returns
      (λ got t.
        (filled : List Arg) × (got ≡ some filled)
        × AllJoined 100 2 (0 ∷ 1 ∷ []) (λ j. j) served_entry filled t)
      (tinyfile_async_join 100
        (replicate 2 (λ u. u))
        (0 ∷ 1 ∷ [])
        2
        (arg_of 0 ∷ arg_of 0 ∷ [])
        two_served)
tinyfile_async_join-AllJoined_example =
    tinyfile_async_join-AllJoined 100 2 (0 ∷ 1 ∷ []) (λ j. j) served_entry
      (arg_of 0 ∷ arg_of 0 ∷ []) two_served (omega arith) (omega arith) two_idxs-AreApart refl
      two_served-Shows
