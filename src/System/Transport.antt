-- ===== src/System/Transport.antt =====
-- A request on its whole way: the worker of the client (src/api/api.c, `request_q_handler`) takes it from
-- the request queue and sends it, and a worker of the server (src/server/server.c, `service_worker`)
-- receives it and serves it. The message queue hands over what was sent, in the order in which it was.
use tinyfile.Common.{
  ℕ, ◌/◌, ◌<◌, ◌≡◌, ◌≢◌, refl, true, false, none, some, List, [], ◌∷◌, map, get_elem?, set,
}
use tinyfile.Common.Run.{Run, ok, fault, blocked, out_of_fuel}
use tinyfile.Common.Returns.{Returns, returns}
use tinyfile.Common.Memory.{Ptr, write}
use tinyfile.Types.{Arg, EntryIdx, Request, SharedEntry, compress, minus_one}
use tinyfile.RequestQ.{Queue, handler}
use tinyfile.RequestQ.Refine.{IsQueue}
use tinyfile.RequestQ.Shutdown.{quiet, handler-one}
use tinyfile.Server.Compress.{World, Disk, compress_service}
use tinyfile.Server.Worker.{Work, service_worker}
use tinyfile.Server.Worker.Handle.{service_worker-done}
use tinyfile.Api.{Api}
use tinyfile.System.{view, back}

-- The server's worker over the requests that were sent; `server i` is what the world answers while the
-- request for the entry `i` is served.
abbrev pub received : ℕ → (server : EntryIdx → World) → List Request → Work → Run Work (Unit {0})
received sizeof_entry server sent =
    service_worker sizeof_entry (map (λ r. (some r, server r.entry_idx)) sent)

-- What the client sees once its worker has run for some rounds and the server has served what it sent.
abbrev pub put_sent : ℕ → (EntryIdx → World) → Disk → Api → Run Queue (List Request) → Api
put_sent sizeof_entry w disk s (ok sent q) =
    let t : Api = record s { requests = q } in back t (received sizeof_entry w sent (view t disk))
put_sent sizeof_entry w disk s fault = s
put_sent sizeof_entry w disk s blocked = s
put_sent sizeof_entry w disk s out_of_fuel = s

unfoldable pub delivered : ℕ → (server : EntryIdx → World) → Disk → (rounds : ℕ) → Api → Api
delivered sizeof_entry w disk rounds s =
    put_sent sizeof_entry w disk s (handler (quiet rounds) s.requests)

-- The queue once its one request, in the node `p`, has been taken off.
pub record Emptied (p : Ptr) (old new : Queue) : Type 0 where
  pub empty : IsQueue new []
  pub heap : new.heap ≡ write old.heap p none
  pub runs : new.stop_worker ≡ false

module _ (sizeof_entry : ℕ) (w : EntryIdx → World) (disk disk' : Disk) (s : Api) (p : Ptr)
    (req : Request) (queued : IsQueue s.requests ((p, req) ∷ []))
    (runs : s.requests.stop_worker ≡ false) where
  -- The entry of the request, once it has been served.
  abbrev answered : SharedEntry → Arg → Queue → Api
  answered e out q = record s {
    requests = q;
    entries = set s.entries req.entry_idx (record e { arg = out; done = true });
  }

  -- The one request that is queued is taken, sent, received and served.
  pub delivered-done :
      (e : SharedEntry) (code : ℕ) (out : Arg) (rounds : ℕ)
      → 0 < rounds
      → req.entry_idx < s.mapped / sizeof_entry
      → get_elem? s.entries req.entry_idx ≡ some e
      → req.request_id ≢ minus_one
      → req.service ≡ compress
      → compress_service (w req.entry_idx) e.arg disk ≡ ok (code, out) disk'
      → (q : Queue) × Emptied p s.requests q
        × (delivered sizeof_entry w disk rounds s ≡ answered e out q)
  unfolding delivered
  delivered-done e code out rounds some_round within there proper asked ran =
      relayed (handler-one rounds s.requests p req queued runs some_round)
    where
      relayed :
          {r : Run Queue (List Request)}
          → Returns
              (λ sent q.
                (sent ≡ req ∷ [])
                × IsQueue q []
                × (q.heap ≡ write s.requests.heap p none)
                × (q.stop_worker ≡ false))
              r
          → (q : Queue) × Emptied p s.requests q
            × (put_sent sizeof_entry w disk s r ≡ answered e out q)
      relayed (returns {s = q} (all, empty, heap, still)) = (
        q,
        record { empty = empty; heap = heap; runs = still },
        rw
            (
              all,
              service_worker-done sizeof_entry (w req.entry_idx) req
                  (view (record s { requests = q }) disk) e code out disk' refl within there proper
                  asked ran,
            )
            refl,
      )
