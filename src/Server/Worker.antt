-- ===== src/Server/Worker.antt =====
-- src/server/server.c: `handle_request`, a worker thread, and the server's half of a resize.
pub mod Batch
pub mod Clear
pub mod Crew
pub mod Handle
pub mod Stopped
use tinyfile.Common.{
  ℕ, zero, suc, ◌+◌, ◌*◌, ◌/◌, ◌%◌, ◌^◌, Bool, true, false, Option, none, some, List, [], ◌∷◌, ltb,
  ◌==◌, if◌then◌else◌, get_elem?, set, replicate, drop, take, ◌++◌,
}
use tinyfile.Common.Run.{
  Run, ok, fault, blocked, out_of_fuel, Cmd, pure, ◌>>=◌, ◌>>◌, gets, modify, need,
}
use tinyfile.Types.{
  Arg, Service, compress, unknown_service, Request, SharedEntry, minus_one, int_of_size,
  size_of_int,
}
use tinyfile.Server.Compress.{World, Disk, compress_service}

-- What the workers of one client share: the mapped bytes, the entries of the shared memory, the files
-- written, the client's flag and counters, and how many threads were started to resize.
pub record Work : Type 0 where
  pub mapped : ℕ
  pub entries : List SharedEntry
  pub disk : Disk
  pub stop_client_threads : Bool
  pub num_requests_started : ℕ
  pub num_requests_completed : ℕ
  pub resizes : ℕ

-- A command on the files, as a command on the whole.
abbrev pub put_disk : {A : Type 0} → Work → Run Disk A → Run Work A
put_disk s (ok a d) = ok a (record s { disk = d })
put_disk s fault = fault
put_disk s blocked = blocked
put_disk s out_of_fuel = out_of_fuel

abbrev pub on_disk : {A : Type 0} → Cmd Disk A → Cmd Work A
on_disk m s = put_disk s (m s.disk)

set_entry : ℕ → SharedEntry → Cmd Work (Unit {0})
set_entry idx e s = ok tt (record s { entries = set s.entries idx e })

-- The argument as the service leaves it. A failure and an unknown service are only reported.
serve : World → Service → Arg → Cmd Work Arg
serve w compress arg = do (code, out) ← on_disk (compress_service w arg); pure out
serve w (unknown_service n) arg = pure arg

module _ (sizeof_entry : ℕ) where
  entry_at : ℕ → Cmd Work SharedEntry
  entry_at idx s =
      if ltb idx (s.mapped / sizeof_entry) then need (get_elem? s.entries idx) s else fault

  -- `handle_request`: the entry is marked as done whatever the service made of it.
  pub handle_request : World → Request → Cmd Work (Unit {0})
  handle_request w req = do
    e ← entry_at req.entry_idx
    arg ← serve w req.service e.arg
    set_entry req.entry_idx (record e { arg = arg; done = true })

  -- A round of `service_worker` with what `mq_timedreceive` gave, `none` if it failed. The counters are
  -- `int`s.
  pub worker_round : Option Request → World → Cmd Work (Unit {0})
  worker_round none w = pure tt
  worker_round (some req) w =
      if req.request_id == minus_one then modify (λ s. record s { resizes = s.resizes + 1 }) else do
        modify (λ s. record s { num_requests_started = (s.num_requests_started + 1) % 2 ^ 32 })
        handle_request w req
        modify (λ s. record s { num_requests_completed = (s.num_requests_completed + 1) % 2 ^ 32 })

  -- `service_worker` over the rounds given, or until the client's threads are told to stop.
  pub service_worker : List (Option Request × World) → Cmd Work (Unit {0})
  service_worker [] = pure tt
  service_worker ((message, w) ∷ rest) = do
    stop ← gets (λ s. s.stop_client_threads)
    if stop then pure tt else (worker_round message w >> service_worker rest)

-- The entry that the server's `resize_shm` copies to each new place.
abbrev pub blank : Arg → SharedEntry
blank unset = record { used = false; done = false; arg = unset }

-- `resize_shm` of the server on the object: the places from the old number of entries to the new one get
-- blank entries; what is copied from the old mapping is the same object, so it changes nothing.
pub clear_from : Arg → (old : ℕ) → List SharedEntry → List SharedEntry
clear_from unset old [] = []
clear_from unset zero (e ∷ es) = blank unset ∷ clear_from unset zero es
clear_from unset (suc old) (e ∷ es) = e ∷ clear_from unset old es

-- `resize_shm` of the server, in one piece: `size` is what `fstat` gives for the object that the client
-- has made larger, `none` if `shm_open` fails, on which the process ends. The workers are stopped, the
-- new places are cleared, the client is sent the message whose number is the result, and the workers
-- start again.
pub resize_shm : (sizeof_entry : ℕ) → (size : Option ℕ) → Arg → Cmd Work (Option ℕ)
resize_shm sizeof_entry none unset = pure none
resize_shm sizeof_entry (some size) unset = do
  modify (λ s. record s {
    entries = clear_from unset (size_of_int (int_of_size s.mapped) / sizeof_entry) s.entries;
    stop_client_threads = true;
  })
  modify (λ s. record s { mapped = size; stop_client_threads = false })
  pure (some minus_one)
