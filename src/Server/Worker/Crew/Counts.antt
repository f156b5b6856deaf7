-- ===== src/Server/Worker/Crew/Counts.antt =====
-- What the counters of a client tell of its workers.
use tinyfile.Common.{
  ℕ, zero, suc, ◌+◌, ◌%◌, ◌^◌, ◌/◌, ◌<◌, ◌≤◌, ◌≡◌, ◌↔◌, refl, Option, none, some, List, [], ◌∷◌,
  ◌++◌, arith, length, length-append, replicate, ltb, Bool-cases, inl, inr, get_elem?, ap, ◌∙◌,
}
use tinyfile.Common.Run.{Run, ok, fault, blocked, out_of_fuel, need}
use tinyfile.Common.Gives.{Gives, gives, faults, blocks, runs_out, after, returned}
use tinyfile.Types.{Arg, Request, SharedEntry, Service, compress, unknown_service}
use tinyfile.Server.Compress.{World, Disk, compress_service}
use tinyfile.Server.Worker.{Work, put_disk, handle_request, entry_at, serve, set_entry}
use tinyfile.Server.Worker.Crew.{
  Stage, testing, waiting, received, serving, served, ended, Turn, goes_on, leaves, times_out,
  resizes, receives, starts, serves, completes, Crew, Step, turn, told, Reach, here, next, fresh,
}

-- A worker between the two increments has begun a request and not completed it.
abbrev pub begun : Stage → ℕ
begun testing = 0
begun waiting = 0
begun served = 1
begun ended = 0
begun (received r) = 0
begun (serving r) = 1

abbrev pub all_begun : List Stage → ℕ
all_begun [] = 0
all_begun (x ∷ xs) = begun x + all_begun xs

all_begun-append :
    (xs : List Stage) (x : Stage) (ys : List Stage)
    → all_begun (xs ++ (x ∷ ys)) ≡ begun x + (all_begun xs + all_begun ys)
all_begun-append [] x ys = omega arith
all_begun-append (z ∷ xs) x ys = omega (arith, all_begun-append xs x ys)

abbrev SameCounters : {A : Type 0} → Work → A → Work → Type 0
SameCounters s a t =
    (t.num_requests_started ≡ s.num_requests_started)
    × (t.num_requests_completed ≡ s.num_requests_completed)

put_disk-SameCounters :
    {A : Type 0} (s : Work) (r : Run Disk A) → Gives (SameCounters s) (put_disk s r)
put_disk-SameCounters s (ok a d) = gives (refl, refl)
put_disk-SameCounters s fault = faults
put_disk-SameCounters s blocked = blocks
put_disk-SameCounters s out_of_fuel = runs_out

serve-SameCounters :
    (w : World) (service : Service) (arg : Arg) (s : Work)
    → Gives (SameCounters s) (serve w service arg s)
unfolding serve
serve-SameCounters w compress arg s =
    after (put_disk-SameCounters s (compress_service w arg s.disk)) λ (code, out) t same. gives same
serve-SameCounters w (unknown_service n) arg s = gives (refl, refl)

entry_at-same : (size idx : ℕ) (s : Work) → Gives (λ _ t. t ≡ s) (entry_at size idx s)
unfolding entry_at
entry_at-same size idx s = elim (Bool-cases (ltb idx (s.mapped / size))) [
  | inl within ↦ rw within (needed (get_elem? s.entries idx))
  | inr past ↦ rw past faults
]
  where
    needed : (o : Option SharedEntry) → Gives (λ _ t. t ≡ s) (need o s)
    needed none = faults
    needed (some e) = gives refl

handle_request-SameCounters :
    (size : ℕ) (w : World) (r : Request) (s : Work)
    → Gives (SameCounters s) (handle_request size w r s)
unfolding handle_request set_entry
handle_request-SameCounters size w r s =
    after (entry_at-same size r.entry_idx s) λ e t same.
      after (serve-SameCounters w r.service e.arg t) λ arg u kept. gives (rw same at kept)

-- The requests begun are those completed and those under way; both counters stay `int`s.
record Counts (underway : ℕ) (s : Work) : Type 0 where
  sum : s.num_requests_started ≡ (s.num_requests_completed + underway) % 2 ^ 32
  small : s.num_requests_completed < 2 ^ 32

Turn-Counts :
    {x y : Stage} {s t : Work} (size others : ℕ)
    → Turn size x s y t
    → Counts (begun x + others) s
    → Counts (begun y + others) t
Turn-Counts size k (goes_on run) c = c
Turn-Counts size k (leaves stop) c = c
Turn-Counts size k times_out c = c
Turn-Counts size k (resizes r asked) c = record { sum = c.sum; small = c.small }
Turn-Counts size k (receives r asked) c = c
Turn-Counts size k starts c = record { sum = omega (arith, c.sum); small = c.small }
Turn-Counts {s = s} {t = t} size k (serves {r = r} w ran) c =
    let (started, completed) = returned (handle_request-SameCounters size w r s) ran in
    record {
      sum = omega (arith, c.sum, started, completed);
      small = omega (arith, c.small, completed);
    }
Turn-Counts size k completes c = record { sum = omega (arith, c.sum); small = omega arith }

-- The counters count what the workers have begun and completed.
abbrev IsCounted : Crew → Type 0
IsCounted c = Counts (all_begun c.stages) c.shared

Step-IsCounted : {c d : Crew} (size : ℕ) → Step size c d → IsCounted c → IsCounted d
Step-IsCounted size (turn {x = x} {y = y} before after move) counted =
    rw (all_begun-append before y after) (
      Turn-Counts size (all_begun before + all_begun after) move
        (rw (all_begun-append before x after) at counted))
Step-IsCounted size (told c) counted = record { sum = counted.sum; small = counted.small }

-- No worker comes or goes.
Step-length : {c d : Crew} (size : ℕ) → Step size c d → length d.stages ≡ length c.stages
Step-length size (turn {x = x} {y = y} before after move) =
    rw (length-append before (x ∷ after), length-append before (y ∷ after)) refl
Step-length size (told c) = refl

all_begun-replicate : (n : ℕ) → all_begun (replicate n testing) ≡ 0
all_begun-replicate zero = refl
all_begun-replicate (suc n) = omega (arith, all_begun-replicate n)

length-replicate : (n : ℕ) → length (replicate n testing) ≡ n
length-replicate zero = refl
length-replicate (suc n) = ap suc (length-replicate n)

begun-bound : (x : Stage) → begun x ≤ 1
begun-bound testing = omega arith
begun-bound waiting = omega arith
begun-bound served = omega arith
begun-bound ended = omega arith
begun-bound (received r) = omega arith
begun-bound (serving r) = omega arith

all_begun-length : (xs : List Stage) → all_begun xs ≤ length xs
all_begun-length [] = omega arith
all_begun-length (x ∷ xs) = omega (arith, begun-bound x, all_begun-length xs)

module _ (sizeof_entry mapped n : ℕ) (entries : List SharedEntry) (disk : Disk) where
  Reach-IsCounted :
      {c : Crew}
      → Reach sizeof_entry (fresh mapped n entries disk) c
      → IsCounted c × (length c.stages ≡ n)
  Reach-IsCounted here = (
    record { sum = omega (arith, all_begun-replicate n); small = omega arith },
    length-replicate n,
  )
  Reach-IsCounted (next before step) =
      let (counted, all) = Reach-IsCounted before in
      (Step-IsCounted sizeof_entry step counted, Step-length sizeof_entry step ∙ all)

  -- In whatever order the workers of a client take their steps, from the state in which they are started, the
  -- two counters are equal, as the wait of `unregister_client` demands, exactly when no worker is between
  -- its two increments, in which it serves a request; there are fewer than 2 ^ 32 workers.
  pub Reach-begun :
      (c : Crew)
      → n < 2 ^ 32
      → Reach sizeof_entry (fresh mapped n entries disk) c
      → (c.shared.num_requests_started ≡ c.shared.num_requests_completed) ↔ (all_begun c.stages ≡ 0)
  Reach-begun c few reached =
      let (counted, all) = Reach-IsCounted reached in
      let bound = all_begun-length c.stages in
      (
        λ same. omega (arith, counted.sum, counted.small, bound, all, same),
        λ none. omega (arith, counted.sum, counted.small, none),
      )
