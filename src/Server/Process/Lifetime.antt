-- ===== src/Server/Process/Lifetime.antt =====
-- src/server/server.c: the server from its start to its end, while no client is registered.
use tinyfile.Common.{
  ℕ, ◌≡◌, ◌≢◌, refl, true, false, ◌⊎◌, inl, inr, List, [], ◌∷◌, arith, ◌==◌, Bool-cases,
}
use tinyfile.Common.Run.{ok, fault}
use tinyfile.Common.Memory.{null}
use tinyfile.Types.{CString, registry_queue}
use tinyfile.Api.Session.{unlink}
use tinyfile.Api.Session.Lifetime.{unlink-newest}
use tinyfile.Server.Registry.{Answers}
use tinyfile.Server.Registry.Exit.{exit_loop-null}
use tinyfile.Server.Process.{
  running, joined, Process, opened, exists, Starting, open_registry, open_or_replace, init_server,
  join_registry, exit_server, Others, await_q, main, run,
}

-- The bytes `bs` and then a `q` are typed, while nothing else happens.
abbrev pub typed : List ℕ → List (Others × ℕ)
typed [] = ((λ s. s), 113) ∷ []
typed (b ∷ bs) = ((λ s. s), b) ∷ typed bs

await_q-typed : (input : ℕ) (bs : List ℕ) (s : Process) → await_q input (typed bs) s ≡ ok tt s
unfolding await_q
await_q-typed input [] s = elim (Bool-cases (input == 113)) [
  | inl q ↦ rw q
  | inr other ↦ rw other refl
]
await_q-typed input (b ∷ bs) s = elim (Bool-cases (input == 113)) [
  | inl q ↦ rw q
  | inr other ↦ rw other (await_q-typed b bs s)
]

-- The registry's queue is opened as `q`, beside the queues `qs`: there was none of its name, or there was
-- one, which is removed.
pub record Starts (w : Starting) (q : ℕ) (qs : List CString) (s : Process) : Type 0 where
  pub valid : q ≢ 0
  pub creates : w.creates ≡ true
  pub opens :
      ((w.open_first ≡ opened q) × (qs ≡ s.queues))
      ⊎ ((w.open_first ≡ exists)
          × (w.open_second ≡ opened q)
          × (qs ≡ unlink registry_queue s.queues))

abbrev started : ℕ → List CString → Process → Process
started q qs s = record s {
  global_registry = q;
  queues = registry_queue ∷ qs;
  thread = running;
  exits = true;
}

init_server-started :
    (w : Starting) (q : ℕ) (qs : List CString) (s : Process)
    → Starts w q qs s
    → init_server w s ≡ ok true (started q qs s)
unfolding init_server open_or_replace open_registry
init_server-started w q qs s starts = elim starts.opens [
  | inl (first, same) ↦ simp (first, starts.creates, same)
  | inr (first, second, same) ↦ simp (first, second, starts.creates, same)
]

-- What `exit_server` leaves.
abbrev pub ended : ℕ → List CString → Process → Process
ended q qs s = record s {
  server = record (s.server) { stop_registry = true };
  global_registry = q;
  queues = qs;
  thread = joined;
  exits = true;
}

exit_server-ended :
    (answers : List Answers) (q : ℕ) (qs : List CString) (s : Process)
    → q ≢ 0
    → s.server.clients ≡ null
    → exit_server answers (started q qs s) ≡ ok tt (ended q qs s)
unfolding exit_server join_registry
exit_server-ended answers q qs s valid none_there =
    let got : (q == 0) ≡ false = ground arith in
    simp (none_there, exit_loop-null answers s.server, got, unlink-newest registry_queue qs)

exit_server-again :
    (answers : List Answers) (q : ℕ) (qs : List CString) (s : Process)
    → q ≢ 0
    → s.server.clients ≡ null
    → exit_server answers (ended q qs s) ≡ fault
unfolding exit_server join_registry
exit_server-again answers q qs s valid none_there =
    let got : (q == 0) ≡ false = ground arith in
    simp (
      none_there,
      exit_loop-null answers (record (s.server) { clients = null; stop_registry = true }),
      got,
    )

-- A server whose queue can be opened, whether or not one is left over from another server, and whose
-- thread can be created ends once a `q` is typed, if no client is registered and the threads do nothing
-- else: `main` returns, the registry's queue has been made and removed again, and the registry's thread was
-- told to stop and has been waited for.
pub main-ended :
    (w : Starting) (input q : ℕ) (bs : List ℕ) (qs : List CString) (answers : List Answers)
    (s : Process)
    → Starts w q qs s
    → s.server.clients ≡ null
    → main w input (typed bs) answers s ≡ ok true (ended q qs s)
unfolding main
main-ended w input q bs qs answers s starts none_there = rw (
  init_server-started w q qs s starts,
  await_q-typed input bs (started q qs s),
  exit_server-ended answers q qs s starts.valid none_there,
)

-- A server that starts so and is ended by a `q` while no client is registered ends in undefined behaviour:
-- `main` has called `exit_server`, and the function is called again when the process exits, where it joins
-- the registry's thread a second time.
pub run-fault :
    (w : Starting) (input q : ℕ) (bs : List ℕ) (qs : List CString) (answers later : List Answers)
    (s : Process)
    → Starts w q qs s
    → s.server.clients ≡ null
    → run w input (typed bs) answers later s ≡ fault
unfolding run
run-fault w input q bs qs answers later s starts none_there = rw (
  main-ended w input q bs qs answers s starts none_there,
  exit_server-again later q qs s starts.valid none_there,
)
