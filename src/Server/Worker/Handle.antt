-- ===== src/Server/Worker/Handle.antt =====
-- `handle_request`: which entry a request changes, and how.
use tinyfile.Common.{
  ℕ, ◌+◌, ◌/◌, ◌%◌, ◌^◌, ◌<◌, ◌≡◌, ◌≢◌, refl, ap, Bool, true, false, if◌then◌else◌, some, Option,
  List, [], ◌∷◌, arith, ltb, ◌==◌, get_elem?, set,
}
use tinyfile.Common.Run.{ok, then_run, Cmd}
use tinyfile.Types.{Arg, compress, unknown_service, Request, SharedEntry, minus_one}
use tinyfile.Server.Compress.{World, Disk, compress_service}
use tinyfile.Server.Worker.{
  Work, set_entry, serve, entry_at, handle_request, worker_round, service_worker,
}

module _ (sizeof_entry : ℕ) (w : World) (req : Request) (s : Work) (e : SharedEntry)
    (within : req.entry_idx < s.mapped / sizeof_entry)
    (there : get_elem? s.entries req.entry_idx ≡ some e) where
  inside : ltb req.entry_idx (s.mapped / sizeof_entry) ≡ true
  inside = ground (arith, within)

  -- A request to compress, whatever the result `code` of `compress_service`: the entry of the request
  -- gets the argument as the service leaves it and is marked as done; no other entry changes.
  pub handle_request-done :
      (code : ℕ) (out : Arg) (disk : Disk)
      → req.service ≡ compress
      → compress_service w e.arg s.disk ≡ ok (code, out) disk
      → handle_request sizeof_entry w req s
        ≡ ok tt (record s {
          entries = set s.entries req.entry_idx (record e { arg = out; done = true });
          disk = disk;
        })
  unfolding handle_request entry_at serve set_entry
  handle_request-done code out disk asked ran = simp (inside, there, asked, ran)

  -- A request for an unknown service only marks its entry as done.
  pub handle_request-unknown :
      (n : ℕ)
      → req.service ≡ unknown_service n
      → handle_request sizeof_entry w req s
        ≡ ok tt (record s { entries = set s.entries req.entry_idx (record e { done = true }) })
  unfolding handle_request entry_at serve set_entry
  handle_request-unknown n asked = simp (inside, there, asked)

module _ (sizeof_entry : ℕ) (w : World) (req : Request) (s : Work) where
  -- A worker that is not told to stop makes its round.
  pub service_worker-round :
      (rest : List (Option Request × World))
      → s.stop_client_threads ≡ false
      → service_worker sizeof_entry ((some req, w) ∷ rest) s
        ≡ then_run
            (worker_round sizeof_entry (some req) w s)
            (λ _. service_worker sizeof_entry rest)
  unfolding service_worker
  service_worker-round rest runs = ap (λ (m : Cmd Work (Unit {0})). m s) (chosen _ _ runs)
    where
      chosen : {A : Type 0} {b : Bool} (x y : A) → b ≡ false → (if b then x else y) ≡ y
      chosen x y e = rw e

  -- A worker that receives a request to compress serves it, and counts it as started and as completed.
  pub service_worker-done :
      (e : SharedEntry) (code : ℕ) (out : Arg) (disk : Disk)
      → s.stop_client_threads ≡ false
      → req.entry_idx < s.mapped / sizeof_entry
      → get_elem? s.entries req.entry_idx ≡ some e
      → req.request_id ≢ minus_one
      → req.service ≡ compress
      → compress_service w e.arg s.disk ≡ ok (code, out) disk
      → service_worker sizeof_entry ((some req, w) ∷ []) s
        ≡ ok tt (record s {
          entries = set s.entries req.entry_idx (record e { arg = out; done = true });
          disk = disk;
          num_requests_started = (s.num_requests_started + 1) % 2 ^ 32;
          num_requests_completed = (s.num_requests_completed + 1) % 2 ^ 32;
        })
  unfolding worker_round service_worker
  service_worker-done e code out disk runs within there proper asked ran =
      let ordinary : (req.request_id == minus_one) ≡ false = ground (arith, proper) in
      let counted : Work = record s {
        num_requests_started = (s.num_requests_started + 1) % 2 ^ 32;
      } in
      rw
        (
          service_worker-round [] runs,
          ordinary,
          handle_request-done sizeof_entry w req counted e within there code out disk asked ran,
        )
        refl

  -- A request whose number is -1 as an `int` is not served: the worker takes it for the message that asks
  -- for a resize.
  pub service_worker-minus_one :
      s.stop_client_threads ≡ false
      → req.request_id ≡ minus_one
      → service_worker sizeof_entry ((some req, w) ∷ []) s
        ≡ ok tt (record s { resizes = s.resizes + 1 })
  unfolding worker_round service_worker
  service_worker-minus_one runs taken =
      let resizes : (req.request_id == minus_one) ≡ true = ground (arith, taken) in
      rw (service_worker-round [] runs, resizes) refl
