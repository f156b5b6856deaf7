-- ===== src/System/Unanswered.antt =====
-- The request whose number is -1 as an `int` (src/api/api.c, `prepare_request`, where the numbers wrap
-- around): the server's worker (src/server/server.c, `service_worker`) takes it for a resize.
use tinyfile.Common.{ℕ, ◌<◌, ◌≡◌, refl, false, none, List, [], ◌∷◌, ◌++◌, replicate, ◌∙◌}
use tinyfile.Common.Run.{Run, out_of_fuel}
use tinyfile.Common.Returns.{Returns, returns}
use tinyfile.Common.Memory.{Ptr, write}
use tinyfile.Types.{Arg, EntryIdx, Request, compress, minus_one}
use tinyfile.RequestQ.{Queue}
use tinyfile.RequestQ.Insert.{insert}
use tinyfile.RequestQ.Refine.{IsQueue}
use tinyfile.RequestQ.Shutdown.{handler-one}
use tinyfile.Server.Compress.{World, Disk}
use tinyfile.Server.Worker.Handle.{service_worker-minus_one}
use tinyfile.Api.{Api}
use tinyfile.Api.Requests.{Call, tinyfile_sync}
use tinyfile.Api.Requests.Calls.{Ready, made, Shows-prepared}
use tinyfile.Api.Requests.Unserved.{tinyfile_sync-unserved}
use tinyfile.System.{view}
use tinyfile.System.Transport.{put_sent, delivered}

-- The one request that is queued is taken, sent and received, and no entry is touched.
delivered-unserved :
    (sizeof_entry : ℕ) (w : EntryIdx → World) (disk : Disk) (rounds : ℕ) (s : Api) (p : Ptr)
    (req : Request)
    → IsQueue s.requests ((p, req) ∷ [])
    → s.requests.stop_worker ≡ false
    → 0 < rounds
    → req.request_id ≡ minus_one
    → (q : Queue) × (delivered sizeof_entry w disk rounds s ≡ record s { requests = q })
unfolding delivered
delivered-unserved sizeof_entry w disk rounds s p req queued runs some_round wrapped =
    relayed (handler-one rounds s.requests p req queued runs some_round)
  where
    relayed :
        {r : Run Queue (List Request)}
        → Returns
            (λ sent q.
              (sent ≡ req ∷ [])
              × IsQueue q []
              × (q.heap ≡ write s.requests.heap p none)
              × (q.stop_worker ≡ false))
            r
        → (q : Queue) × (put_sent sizeof_entry w disk s r ≡ record s { requests = q })
    relayed (returns {s = q} (all, _, _, _)) = (
      q,
      rw
          (
            all,
            service_worker-minus_one sizeof_entry (w req.entry_idx) req
                (view (record s { requests = q }) disk) refl wrapped,
          )
          refl,
    )

-- The request that follows 2 ^ 32 - 1 others of the same library, on an idle queue whose worker runs, is
-- never answered: it is taken, sent and received, its number is that of a resize, no entry is served, and
-- `tinyfile_sync` is still polling after any number `n` of further polls.
pub tinyfile_sync-unanswered :
    (sizeof_entry : ℕ) (c : Call) (arg : Arg) (priority : ℕ) (s : Api) {i : ℕ}
    (w : EntryIdx → World) (disk : Disk) (rounds m n : ℕ)
    → Ready sizeof_entry c arg compress priority s i []
    → s.shm_resize_lock ≡ false
    → s.requests.stop_worker ≡ false
    → 0 < rounds
    → s.global_request_id ≡ minus_one
    → c.polling
      ≡ replicate m (λ u. u) ++ (delivered sizeof_entry w disk rounds ∷ replicate n (λ u. u))
    → tinyfile_sync sizeof_entry c arg compress priority s ≡ out_of_fuel
unfolding insert
tinyfile_sync-unanswered size c arg priority s {i} w disk rounds m n ready open_lock runs some_round
      wrapped polls =
    tinyfile_sync-unserved size c arg compress priority s ready m n (delivered size w disk rounds)
      polls open_lock
      λ t same q.
        let shows = Shows-prepared size c arg compress priority s ready t open_lock same in
        let (left, gone) =
          delivered-unserved size w disk rounds t c.fresh (made size c arg compress priority s i)
            q.queued (q.stop ∙ runs) some_round wrapped in
        rw gone
          (refl, record { open_lock = shows.open_lock; within = shows.within; there = shows.there })
