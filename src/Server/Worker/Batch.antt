-- ===== src/Server/Worker/Batch.antt =====
-- `service_worker` over the requests for entries that stand side by side.
use tinyfile.Common.{
  ℕ, suc, ◌+◌, ◌/◌, ◌%◌, ◌^◌, ◌<◌, ◌≤◌, ◌≡◌, ◌≢◌, refl, ap, true, false, some, List, [], ◌∷◌, map,
  arith, length, get_elem?, set, get_elem?-set_self, get_elem?-set_ne, ◌∙◌,
}
use tinyfile.Common.Run.{ok, fault, blocked, out_of_fuel, Run, then_run, Cmd}
use tinyfile.Types.{Arg, EntryIdx, compress, Request, SharedEntry, minus_one}
use tinyfile.Server.Compress.{World, Disk, compress_service}
use tinyfile.Server.Worker.{Work, worker_round, service_worker}
use tinyfile.Server.Worker.Handle.{service_worker-round, service_worker-done}

-- The requests are to compress, their numbers are not that of a resize, and their entries stand side by
-- side from `i` on.
abbrev pub Batch : (i : ℕ) → List Request → Type 0
Batch i [] = Unit {0}
Batch i (r ∷ rs) =
    (r.entry_idx ≡ i) × (r.service ≡ compress) × (r.request_id ≢ minus_one) × Batch (suc i) rs

-- The entries from `i` on are taken for the arguments, and not yet served.
abbrev pub TakenFrom : List SharedEntry → (i : ℕ) → List Arg → Type 0
TakenFrom es i [] = Unit {0}
TakenFrom es i (a ∷ args) =
    (get_elem? es i ≡ some (record { used = true; done = false; arg = a }))
    × TakenFrom es (suc i) args

-- The entries from `i` on have the answers `outs`.
abbrev pub AnsweredFrom : List SharedEntry → (i : ℕ) → List Arg → Type 0
AnsweredFrom es i [] = Unit {0}
AnsweredFrom es i (o ∷ outs) =
    (get_elem? es i ≡ some (record { used = true; done = true; arg = o }))
    × AnsweredFrom es (suc i) outs

-- What the service makes of the arguments in the entries from `i` on, one after the other, each with its
-- own answers of the world: `outs`, and `after` of the files `before`.
abbrev pub Compresses :
    (server : EntryIdx → World) → (i : ℕ) → (args outs : List Arg) → (before after : Disk) → Type 0
Compresses w i [] [] d e = d ≡ e
Compresses w i (a ∷ args) (o ∷ outs) d e =
    (m : Disk) × (code : ℕ) × (compress_service (w i) a d ≡ ok (code, o) m)
    × Compresses w (suc i) args outs m e
Compresses w i [] (o ∷ outs) d e = ⊥
Compresses w i (a ∷ args) [] d e = ⊥

-- An entry before `i` does not matter.
pub TakenFrom-set :
    (es : List SharedEntry) (i j : ℕ) (e : SharedEntry) (args : List Arg)
    → j < i
    → TakenFrom es i args
    → TakenFrom (set es j e) i args
TakenFrom-set es i j e [] lt t = tt
TakenFrom-set es i j e (a ∷ args) lt (there, rest) = (
  get_elem?-set_ne es j i e (omega arith) ∙ there,
  TakenFrom-set es (suc i) j e args (omega arith) rest,
)

pub AnsweredFrom-set :
    (es : List SharedEntry) (i j : ℕ) (e : SharedEntry) (outs : List Arg)
    → j < i
    → AnsweredFrom es i outs
    → AnsweredFrom (set es j e) i outs
AnsweredFrom-set es i j e [] lt t = tt
AnsweredFrom-set es i j e (o ∷ outs) lt (there, rest) = (
  get_elem?-set_ne es j i e (omega arith) ∙ there,
  AnsweredFrom-set es (suc i) j e outs (omega arith) rest,
)

-- What the worker has made of the entries from `i` on and of the files.
pub record Served (i : ℕ) (outs : List Arg) (after : Disk) (s t : Work) : Type 0 where
  pub answered : AnsweredFrom t.entries i outs
  pub lower : (j : ℕ) → j < i → get_elem? t.entries j ≡ get_elem? s.entries j
  pub files : t.disk ≡ after

module _ (sizeof_entry : ℕ) (w : EntryIdx → World) where
  after_one :
      (r : Run Work (Unit {0})) (m : Cmd Work (Unit {0})) (t : Work)
      → then_run r (λ _ u. ok tt u) ≡ ok tt t
      → then_run r (λ _. m) ≡ m t
  after_one (ok tt u) m t e = let same : u ≡ t = cc in rw same refl
  after_one fault m t e = cc
  after_one blocked m t e = cc
  after_one out_of_fuel m t e = cc

  -- The worker goes on to the next request.
  service_worker-cons :
      (r : Request) (rest : List Request) (s t : Work)
      → s.stop_client_threads ≡ false
      → service_worker sizeof_entry ((some r, w r.entry_idx) ∷ []) s ≡ ok tt t
      → service_worker sizeof_entry (map (λ r. (some r, w r.entry_idx)) (r ∷ rest)) s
        ≡ service_worker sizeof_entry (map (λ r. (some r, w r.entry_idx)) rest) t
  unfolding service_worker
  service_worker-cons r rest s t runs one =
      rw
        (service_worker-round sizeof_entry (w r.entry_idx) r s
          (map (λ r. (some r, w r.entry_idx)) rest) runs)
        (after_one (worker_round sizeof_entry (some r) (w r.entry_idx) s)
          (service_worker sizeof_entry (map (λ r. (some r, w r.entry_idx)) rest)) t
          (rw (← service_worker-round sizeof_entry (w r.entry_idx) r s [] runs) one))

  pub service_worker-all :
      (i : ℕ) (rs : List Request) (args outs : List Arg) (after : Disk) (s : Work)
      → s.stop_client_threads ≡ false
      → length rs ≡ length args
      → i + length args ≤ s.mapped / sizeof_entry
      → Batch i rs
      → TakenFrom s.entries i args
      → Compresses w i args outs s.disk after
      → (t : Work) × (service_worker sizeof_entry (map (λ r. (some r, w r.entry_idx)) rs) s
          ≡ ok tt t)
        × Served i outs after s t
  unfolding service_worker
  service_worker-all i [] [] [] after s runs same within batch taken made =
      (s, refl, record { answered = tt; lower = λ j lt. refl; files = made })
  service_worker-all i [] [] (o ∷ outs) after s runs same within batch taken made = absurd made
  service_worker-all i [] (a ∷ args) outs after s runs same within batch taken made =
      absurd (omega arith)
  service_worker-all i (r ∷ rs) [] outs after s runs same within batch taken made =
      absurd (omega arith)
  service_worker-all i (r ∷ rs) (a ∷ args) [] after s runs same within batch taken made =
      absurd made
  service_worker-all i (r ∷ rs) (a ∷ args) (o ∷ outs) after s runs same within
        (at, asked, proper, batch) (there, taken) (m, code, ran, made) =
      let below : r.entry_idx < s.mapped / sizeof_entry = omega (arith, at, within) in
      let here : get_elem? s.entries r.entry_idx
          ≡ some (record { used = true; done = false; arg = a }) =
        rw at there in
      let served : SharedEntry = record { used = true; done = true; arg = o } in
      let left : ℕ → Work = λ x. record s {
        entries = set s.entries x served;
        disk = m;
        num_requests_started = (s.num_requests_started + 1) % 2 ^ 32;
        num_requests_completed = (s.num_requests_completed + 1) % 2 ^ 32;
      } in
      let u : Work = left i in
      let ran_here : compress_service (w r.entry_idx) a s.disk ≡ ok (code, o) m = rw at ran in
      let one : service_worker sizeof_entry ((some r, w r.entry_idx) ∷ []) s ≡ ok tt u =
        service_worker-done sizeof_entry (w r.entry_idx) r s
          (record { used = true; done = false; arg = a }) code o m runs below here proper asked
          ran_here
        ∙ ap (λ x. ok tt (left x)) at in
      let (t, ran_all, is) =
        service_worker-all (suc i) rs args outs after u runs (omega (arith, same))
          (omega (arith, within)) batch
          (TakenFrom-set s.entries (suc i) i served args (omega arith) taken) made in
      (
        t,
        service_worker-cons r rs s u runs one ∙ ran_all,
        record {
          answered =
              (is.lower i (omega arith) ∙ get_elem?-set_self s.entries i served there, is.answered);
          lower = λ j lt.
              is.lower j (omega (arith, lt))
              ∙ get_elem?-set_ne s.entries i j served (omega (arith, lt));
          files = is.files;
        },
      )

pub Compresses-length :
    (w : EntryIdx → World) (i : ℕ) (args outs : List Arg) (before after : Disk)
    → Compresses w i args outs before after
    → length outs ≡ length args
Compresses-length w i [] [] d e made = refl
Compresses-length w i [] (o ∷ outs) d e made = absurd made
Compresses-length w i (a ∷ args) [] d e made = absurd made
Compresses-length w i (a ∷ args) (o ∷ outs) d e (m, code, ran, made) =
    ap suc (Compresses-length w (suc i) args outs m e made)
