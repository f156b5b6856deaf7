-- ===== src/Api/Requests/Unserved.antt =====
-- `tinyfile_sync` for a request that is not served.
use tinyfile.Common.{ℕ, ◌≡◌, refl, false, ◌∷◌, ◌++◌, replicate}
use tinyfile.Common.Run.{out_of_fuel}
use tinyfile.Common.Returns
use tinyfile.Types.{Arg, Service}
use tinyfile.RequestQ.Chain.{Cells}
use tinyfile.Api.{Api, Others}
use tinyfile.Api.Entries.{taken}
use tinyfile.Api.Entries.Poll.{Shows}
use tinyfile.Api.Entries.Waits.{recv_response-unserved}
use tinyfile.Api.Requests.{Call, tinyfile_sync}
use tinyfile.Api.Requests.Calls.{
  Ready, Enqueued, made, prepared, Shows-prepared, prepare_request-made, enqueued,
}

-- If what others do leaves the entry as it was taken, the call is still polling after any number of polls.
pub tinyfile_sync-unserved :
    (sizeof_entry : ℕ) (c : Call) (arg : Arg) (service : Service) (priority : ℕ) (s : Api) {i : ℕ}
    {xs : Cells}
    → Ready sizeof_entry c arg service priority s i xs
    → (m n : ℕ) (o : Others) → c.polling ≡ replicate m (λ u. u) ++ (o ∷ replicate n (λ u. u))
    → s.shm_resize_lock ≡ false
    → ((t : Api)
        → t ≡ record (prepared sizeof_entry c arg service priority s i) { requests = t.requests }
        → Enqueued c.fresh (made sizeof_entry c arg service priority s i) xs s.requests t.requests
        → ((o t).shm_addr ≡ t.shm_addr) × Shows sizeof_entry i (taken arg) (o t))
    → tinyfile_sync sizeof_entry c arg service priority s ≡ out_of_fuel
unfolding tinyfile_sync
tinyfile_sync-unserved size c arg service priority s {i} ready m n o polls open_lock leaves =
    rw (prepare_request-made size c arg service priority s ready, polls)
      (Returns.chain_eq _ out_of_fuel (enqueued size c arg service priority s ready)
        λ _ t (q, same).
          let (stays, later) = leaves t same q in
          let shows = Shows-prepared size c arg service priority s ready t open_lock same in
          rw (recv_response-unserved size i (taken arg) refl m n o t shows stays later) refl)
