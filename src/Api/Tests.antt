-- ===== src/Api/Tests.antt =====
-- Concrete states of the client library, at which the theorems on it apply.
use tinyfile.Common.{
  ◌∙◌, ℕ, ◌<◌, ◌≤◌, ◌≡◌, refl, true, false, inl, none, some, List, [], ◌∷◌, ◌++◌, arith, Bool,
  Option, length, get_elem?, set, replicate,
}
use tinyfile.Common.Run.{ok, blocked, then_run}
use tinyfile.Common.Gives
use tinyfile.Common.Returns.{Returns}
use tinyfile.Api.Shm.Resized.{resize_shm-unopened}
use tinyfile.Types.{Request, Arg, SharedEntry, compress, minus_one, size_of_int}
use tinyfile.RequestQ.Tests.{
  request_of, two_cells, two_queued, two_queued-IsQueue, two_queued-unused,
}
use tinyfile.Api.{Api, Others}
use tinyfile.Api.Shm.{Answers, resize_shm, new_shm_size}
use tinyfile.Api.Entries.{find_shared_entry, is_request_done, recv_response}
use tinyfile.Api.Entries.Find.{
  Keeps, Took, FreeAt, quiet, find_shared_entry-Took, find_shared_entry-first,
}
use tinyfile.Api.Entries.Poll.{Shows, taken_off, resize_shm-is_request_done, recv_response-busy}
use tinyfile.Api.Requests.{Call, tinyfile_sync}
use tinyfile.Api.Requests.Calls.{Ready, Enqueued, prepared, tinyfile_sync-served}

abbrev pub arg_of : ℕ → Arg
arg_of n = record { source_file_path = n ∷ []; compressed_file_path = [] }

abbrev pub entry_of : (used done : Bool) → Arg → SharedEntry
entry_of used done arg = record { used = used; done = done; arg = arg }

-- Entries of 100 bytes; four are mapped, the first is in use, and the limit leaves room for two more.
abbrev pub four_entries : Api
four_entries = record {
  init = true;
  shm_size = 200;
  shm_max_size = 600;
  shm_addr = 4096;
  shm_fd = 5;
  mapped = 400;
  shm_resize_lock = false;
  entries = entry_of true false (arg_of 97) ∷ replicate 3 (entry_of false false (arg_of 0));
  global_request_id = 2;
  requests = two_queued;
  sent = [];
}

abbrev pub answers_of : Option ℕ → (List SharedEntry → List SharedEntry) → Answers
answers_of fd server = record {
  shm_open = fd;
  mmap = some 8192;
  server = server;
  response_id = minus_one;
  unset = request_of 0 0;
}

abbrev pub refusing : Answers
refusing = answers_of none (λ es. es)

pub four_entries-FreeAt : FreeAt 100 1 four_entries
four_entries-FreeAt = record {
  entry = entry_of false false (arg_of 0);
  small = omega arith;
  within = omega arith;
  there = refl;
  unused = refl;
  busy = λ j lt. (entry_of true false (arg_of 97), ground arith, refl);
  calm = inl (omega arith);
}

find_shared_entry-first_example :
    find_shared_entry 100 (quiet (refusing ∷ refusing ∷ [])) (arg_of 98) four_entries
    ≡ ok 1 (record four_entries {
      entries = set four_entries.entries 1 (entry_of true false (arg_of 98));
    })
find_shared_entry-first_example =
    find_shared_entry-first 100 (arg_of 98) four_entries 1 (refusing ∷ refusing ∷ [])
      four_entries-FreeAt (omega arith)

four_entries-found :
    find_shared_entry 100 (quiet (refusing ∷ refusing ∷ [])) (arg_of 98) four_entries
    ≡ ok 1 (record four_entries {
      entries = set four_entries.entries 1 (entry_of true false (arg_of 98));
    })
four_entries-found =
    find_shared_entry-first 100 (arg_of 98) four_entries 1 (refusing ∷ refusing ∷ [])
      four_entries-FreeAt (omega arith)

refusing-Keeps :
    Keeps 100 (λ u. u.entries ≡ four_entries.entries) (quiet (refusing ∷ refusing ∷ []))
refusing-Keeps = (
  (λ u p. p),
  (λ u p. Gives.weaken (λ _ v same. same ∙ p) (resize_shm-unopened 100 refusing u refl)),
  (
    (λ u p. p),
    (λ u p. Gives.weaken (λ _ v same. same ∙ p) (resize_shm-unopened 100 refusing u refl)),
    tt,
  ),
)

find_shared_entry-Took_example :
    Took 100
      (λ u. u.entries ≡ four_entries.entries)
      (arg_of 98)
      1
      (record four_entries {
        entries = set four_entries.entries 1 (entry_of true false (arg_of 98));
      })
find_shared_entry-Took_example =
    find_shared_entry-Took 100 (λ u. u.entries ≡ four_entries.entries) (arg_of 98)
      (quiet (refusing ∷ refusing ∷ [])) four_entries refl refusing-Keeps four_entries-found

pub four_entries-fits : new_shm_size 100 four_entries ≤ size_of_int 600
unfolding new_shm_size
four_entries-fits = omega arith

resize_shm-is_request_done_example :
    then_run (resize_shm 100 refusing four_entries) (λ _. is_request_done 100 (λ s. s) 0) ≡ blocked
resize_shm-is_request_done_example =
    resize_shm-is_request_done 100 0 refusing (λ s. s) four_entries four_entries-fits refl
      (inl refl)

-- The server has served the entry.
abbrev pub finish : ℕ → Arg → Others
finish idx arg s = record s { entries = set s.entries idx (entry_of true true arg) }

four_entries-Shows : Shows 100 0 (entry_of true false (arg_of 97)) four_entries
four_entries-Shows = record { open_lock = refl; within = omega arith; there = refl }

finished-Shows : Shows 100 0 (entry_of true true (arg_of 99)) (finish 0 (arg_of 99) four_entries)
finished-Shows = record { open_lock = refl; within = omega arith; there = refl }

recv_response-busy_example :
    (slept : List ℕ) × (recv_response 100
        (replicate 40 (λ s. s) ++ (finish 0 (arg_of 99) ∷ []))
        0
        four_entries
      ≡ ok
          (arg_of 99, slept)
          (taken_off (finish 0 (arg_of 99) four_entries) 0 (entry_of true true (arg_of 99))))
    × (length slept ≡ 40)
    × ((k : ℕ) → 31 ≤ k → k < 40 → get_elem? slept k ≡ some 0)
recv_response-busy_example =
    recv_response-busy 100 0 40 (finish 0 (arg_of 99)) [] four_entries
      (entry_of true false (arg_of 97)) (entry_of true true (arg_of 99)) four_entries-Shows refl
      refl finished-Shows refl

-- A call whose request is served after two polls.
abbrev pub call_of : List Others → Call
call_of polling = record {
  pid = 7;
  unset = request_of 0 0;
  finding = quiet (refusing ∷ refusing ∷ []);
  walk = 3;
  fresh = 3;
  polling = polling;
}

pub call_of-Ready :
    (polling : List Others)
    → Ready 100 (call_of polling) (arg_of 98) compress 4 four_entries 1 two_cells
call_of-Ready polling = record {
  answers = refusing ∷ refusing ∷ [];
  finding = refl;
  rounds = omega arith;
  allowed = omega arith;
  free = four_entries-FreeAt;
  queue = two_queued-IsQueue;
  fresh = omega arith;
  unused = two_queued-unused;
  walk = omega arith;
}

abbrev queued_request : Request
queued_request = record { service = compress; priority = 4; request_id = 2; entry_idx = 1; pid = 7 }

abbrev served_polls : List Others
served_polls = replicate 2 (λ s. s) ++ (finish 1 (arg_of 99) ∷ [])

tinyfile_sync-served_example :
    Returns
      (λ (code, out) u.
        (code ≡ 0)
        × (out ≡ some (arg_of 99))
        × ((t : Api) × Enqueued 3 queued_request two_cells four_entries.requests t.requests
            × (t
                ≡ record (prepared 100
                    (call_of served_polls)
                    (arg_of 98)
                    compress
                    4
                    four_entries
                    1) { requests = t.requests })
            × (u ≡ taken_off (finish 1 (arg_of 99) t) 1 (entry_of true true (arg_of 99)))))
      (tinyfile_sync 100 (call_of served_polls) (arg_of 98) compress 4 four_entries)
tinyfile_sync-served_example =
    tinyfile_sync-served 100 (call_of served_polls) (arg_of 98) compress 4 four_entries {i = 1}
      {xs = two_cells} (call_of-Ready served_polls) 2 (finish 1 (arg_of 99)) []
      (entry_of true true (arg_of 99)) refl refl refl served_shows
  where
    served_shows :
        (t : Api)
        → t ≡ record (prepared 100 (call_of served_polls) (arg_of 98) compress 4 four_entries 1) {
          requests = t.requests;
        }
        → Enqueued 3 queued_request two_cells four_entries.requests t.requests
        → ((finish 1 (arg_of 99) t).shm_addr ≡ t.shm_addr)
          × Shows 100 1 (entry_of true true (arg_of 99)) (finish 1 (arg_of 99) t)
    served_shows t same queued =
        rw same (refl, record { open_lock = refl; within = omega arith; there = refl })
