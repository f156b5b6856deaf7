-- ===== src/Server/Process/Tests.antt =====
-- A server that finds the registry's queue of another one, at which the theorems on its run apply.
use tinyfile.Common.{◌≡◌, refl, true, false, none, inr, [], ◌∷◌, arith}
use tinyfile.Common.Run.{ok, fault}
use tinyfile.Types.{registry_queue}
use tinyfile.Api.Session.{unlink}
use tinyfile.Server.Process.{not_created, Process, opened, exists, Starting, main, run}
use tinyfile.Server.Process.Lifetime.{typed, Starts, ended, main-ended, run-fault}

abbrev stale : Process
stale = record {
  server = record { heap = λ _. none; clients = 0; stop_registry = false; pills = [] };
  global_registry = 0;
  queues = registry_queue ∷ (47 ∷ []) ∷ [];
  thread = not_created;
  exits = false;
}

abbrev starting : Starting
starting = record { open_first = exists; open_second = opened 4; creates = true }

stale-Starts : Starts starting 4 (unlink registry_queue (registry_queue ∷ (47 ∷ []) ∷ [])) stale
stale-Starts = record { valid = omega arith; creates = refl; opens = inr (refl, refl, refl) }

main-ended_example :
    main starting 0 (typed (120 ∷ 10 ∷ [])) [] stale
    ≡ ok true (ended 4 (unlink registry_queue (registry_queue ∷ (47 ∷ []) ∷ [])) stale)
main-ended_example =
    main-ended starting 0 4 (120 ∷ 10 ∷ [])
      (unlink registry_queue (registry_queue ∷ (47 ∷ []) ∷ [])) [] stale stale-Starts refl

run-fault_example : run starting 0 (typed (120 ∷ 10 ∷ [])) [] [] stale ≡ fault
run-fault_example =
    run-fault starting 0 4 (120 ∷ 10 ∷ []) (unlink registry_queue (registry_queue ∷ (47 ∷ []) ∷ []))
      [] [] stale stale-Starts refl
