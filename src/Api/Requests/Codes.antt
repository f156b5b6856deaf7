-- ===== src/Api/Requests/Codes.antt =====
-- The codes that the calls of the library give for the priorities that are allowed.
use tinyfile.Common.{ℕ, ◌≤◌, ◌≡◌, refl, false, some, arith, ltb}
use tinyfile.Common.Gives.{Gives, gives, after, whatever}
use tinyfile.Types.{Arg, Service, EntryIdx, Priority}
use tinyfile.RequestQ.{enqueue}
use tinyfile.Api.{Api, on_queue}
use tinyfile.Api.Entries.{recv_response}
use tinyfile.Api.Requests.{Call, next_id, prepare_request, tinyfile_sync, tinyfile_async}

module _ (sizeof_entry : ℕ) (c : Call) (arg : Arg) (service : Service) (p : Priority)
    (allowed : p ≤ 31) (s : Api) where
  prepare_request-Gives : Gives (λ r t. r.0 ≡ 0) (prepare_request sizeof_entry c arg service p s)
  unfolding prepare_request next_id
  prepare_request-Gives =
      let within : ltb 31 p ≡ false = ground (arith, allowed) in
      rw within (whatever _ λ idx u. gives refl)

  pub tinyfile_sync-Gives :
      Gives
        (λ r t. (out : Arg) × (r ≡ (0, some out)))
        (tinyfile_sync sizeof_entry c arg service p s)
  unfolding tinyfile_sync
  tinyfile_sync-Gives = after prepare_request-Gives λ r t z. rw z (
      whatever (on_queue (enqueue c.walk c.fresh r.1) t) λ _ u.
        whatever (recv_response sizeof_entry c.polling r.1.entry_idx u) λ x v. gives (x.0, refl))

  pub tinyfile_async-Gives :
      Gives
        (λ r t. (idx : EntryIdx) × (r ≡ (0, some idx)))
        (tinyfile_async sizeof_entry c arg service p s)
  unfolding tinyfile_async
  tinyfile_async-Gives =
      after prepare_request-Gives λ r t z. rw z (whatever _ λ _ u. gives (r.1.entry_idx, refl))
