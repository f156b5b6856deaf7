-- ===== src/System/Tests.antt =====
-- A concrete client and a concrete server, at which the theorems on both apply.
use tinyfile.Common.{
  ap, ◌≢◌, true, length, ℕ, ◌<◌, ◌≤◌, ◌≡◌, refl, false, inl, none, some, List, [], ◌∷◌, ◌++◌, arith,
  get_elem?, replicate,
}
use tinyfile.Common.Run.{ok, out_of_fuel, then_run}
use tinyfile.Common.Memory.{null}
use tinyfile.Common.Returns.{Returns}
use tinyfile.Types.{CString, Arg, SharedEntry, Request, compress, minus_one}
use tinyfile.RequestQ.Tests.{two_cells}
use tinyfile.Api.{Api, Others}
use tinyfile.Api.Shm.{Answers, resize_shm, new_shm_size}
use tinyfile.Api.Entries.Find.{FreeAt}
use tinyfile.Api.Shm.Resized.{IsMapped}
use tinyfile.Api.Requests.{tinyfile_sync}
use tinyfile.Api.Requests.Calls.{Ready}
use tinyfile.Api.Tests.{
  entry_of, arg_of, four_entries, four_entries-fits, four_entries-FreeAt, refusing, answers_of,
  call_of, call_of-Ready,
}
use tinyfile.Server.Compress.{World, Disk, suffix}
use tinyfile.Server.Compress.Tests.{world_of, keeping, file, keeping-Reads, any-Reads, keeping-text}
use tinyfile.Server.Compress.Results.{compress_service-writes}
use tinyfile.Server.Worker.{Work, blank, service_worker}
use tinyfile.System.{served, resized}
use tinyfile.System.Order.{content, SeesOnly, Alike, CanServe, service_worker_comm}
use tinyfile.System.Resize.{resize_shm-both}
use tinyfile.System.Transport.{delivered}
use tinyfile.System.Unanswered.{tinyfile_sync-unanswered}
use tinyfile.System.Sync.{tinyfile_sync-compresses, tinyfile_sync-unread}

four_entries-IsMapped : IsMapped 100 four_entries
four_entries-IsMapped = record {
  whole = refl;
  small = omega arith;
  positive = omega arith;
  positive_max = omega arith;
  open_lock = refl;
}

abbrev clearing : Answers
clearing = answers_of (some 6) (resized 100 (arg_of 1) [] four_entries)

resize_shm-both_example :
    (t : Api) × (resize_shm 100 clearing four_entries ≡ ok 0 t)
    × IsMapped 100 t
    × (t.requests.stop_worker ≡ false)
    × ((i : ℕ) → i < 4 → get_elem? t.entries i ≡ get_elem? four_entries.entries i)
    × ((i : ℕ) → 4 ≤ i → i < 6 → get_elem? t.entries i ≡ some (blank (arg_of 1)))
resize_shm-both_example =
    resize_shm-both 100 clearing four_entries (arg_of 1) [] 6 8192 (omega arith)
      four_entries-IsMapped four_entries-fits refl refl refl refl

-- The request of the call is served after two polls.
abbrev asked : Request
asked = record { service = compress; priority = 4; request_id = 2; entry_idx = 1; pid = 7 }

abbrev polls : World → List Others
polls w = replicate 2 (λ s. s) ++ (served 100 w [] asked ∷ [])

file-Ready :
    (polling : List Others) → Ready 100 (call_of polling) file compress 4 four_entries 1 two_cells
file-Ready polling =
    let r = call_of-Ready polling in
    record {
      answers = r.answers;
      finding = r.finding;
      rounds = r.rounds;
      allowed = r.allowed;
      free = r.free;
      queue = r.queue;
      fresh = r.fresh;
      unused = r.unused;
      walk = r.walk;
    }

tinyfile_sync-compresses_example :
    Returns
      (λ (result, given) u.
        (result ≡ 0)
        × (given ≡ some (record file { compressed_file_path = 97 ∷ suffix }))
        × ((e : SharedEntry) × (get_elem? u.entries 1 ≡ some e) × (e.used ≡ false)))
      (tinyfile_sync 100 (call_of (polls (world_of keeping))) file compress 4 four_entries)
tinyfile_sync-compresses_example =
    tinyfile_sync-compresses 100 (call_of (polls (world_of keeping))) file 4 four_entries {i = 1}
      {xs = two_cells} (file-Ready (polls (world_of keeping))) refl (world_of keeping) [] 2 [] refl
      (104 ∷ 105 ∷ []) (104 ∷ 105 ∷ []) keeping-Reads (omega arith) refl keeping-text

-- A world in which the file cannot be opened.
abbrev closed : World
closed = record (world_of keeping) { fopen_read = λ _. false }

tinyfile_sync-unread_example :
    Returns
      (λ (result, given) u. (result ≡ 0) × (given ≡ some file))
      (tinyfile_sync 100 (call_of (polls closed)) file compress 4 four_entries)
tinyfile_sync-unread_example =
    tinyfile_sync-unread 100 (call_of (polls closed)) file 4 four_entries {i = 1} {xs = two_cells}
      (file-Ready (polls closed)) refl closed [] 2 [] refl (inl refl)

-- The library after 2 ^ 32 - 1 requests, and its call that is polled for seven more times.
abbrev wrapping : Api
wrapping = record four_entries {
  global_request_id = minus_one;
  requests = record { heap = λ _. none; queue = null; mutex = false; stop_worker = false };
}

abbrev late_polls : List Others
late_polls =
    replicate 2 (λ s. s) ++ (delivered 100 (λ _. world_of keeping) [] 1 ∷ replicate 7 (λ s. s))

wrapping-FreeAt : FreeAt 100 1 wrapping
unfolding new_shm_size
wrapping-FreeAt =
    let f = four_entries-FreeAt in
    record {
      entry = f.entry;
      small = f.small;
      within = f.within;
      there = f.there;
      unused = f.unused;
      busy = f.busy;
      calm = f.calm;
    }

wrapping-Ready : Ready 100 (call_of late_polls) file compress 4 wrapping 1 []
wrapping-Ready = record {
  answers = refusing ∷ refusing ∷ [];
  finding = refl;
  rounds = omega arith;
  allowed = omega arith;
  free = wrapping-FreeAt;
  queue = record { chain = tt; head = refl; free_mutex = refl };
  fresh = omega arith;
  unused = refl;
  walk = omega arith;
}

tinyfile_sync-unanswered_example :
    tinyfile_sync 100 (call_of late_polls) file compress 4 wrapping ≡ out_of_fuel
tinyfile_sync-unanswered_example =
    tinyfile_sync-unanswered 100 (call_of late_polls) file 4 wrapping (λ _. world_of keeping) [] 1 2
      7 wrapping-Ready refl refl (omega arith) refl refl

-- A memory in which the first two entries are taken for two files, and a request for each.
abbrev other_file : Arg
other_file = record { source_file_path = 98 ∷ []; compressed_file_path = [] }

abbrev two_taken : Work
two_taken = record {
  mapped = 400;
  entries = entry_of true false file ∷ entry_of true false other_file ∷ [];
  disk = [];
  stop_client_threads = false;
  num_requests_started = 0;
  num_requests_completed = 0;
  resizes = 0;
}

abbrev asked_for : ℕ → Request
asked_for i = record { service = compress; priority = 1; request_id = i; entry_idx = i; pid = 7 }

any-CanServe :
    (i : ℕ) (arg : Arg)
    → i < 4
    → get_elem? two_taken.entries i ≡ some (entry_of true false arg)
    → length arg.source_file_path < 139
    → CanServe 100
        (world_of keeping)
        (asked_for i)
        two_taken
        (entry_of true false arg)
        (record arg { compressed_file_path = arg.source_file_path ++ suffix })
any-CanServe i arg lt there fits = record {
  within = lt;
  there = there;
  proper = λ e. omega (arith, e, lt);
  asked = refl;
  code = 0;
  left = (arg.source_file_path ++ suffix, 104 ∷ 105 ∷ []) ∷ [];
  ran =
      compress_service-writes (world_of keeping) arg (104 ∷ 105 ∷ []) (any-Reads arg) []
        (104 ∷ 105 ∷ []) fits refl keeping-text;
}

-- A world in which a file that was not written holds two bytes, and one that was holds what was written.
abbrev reading : CString → Disk → World
reading path d = record (world_of keeping) {
  fread = λ _. elim (content d path) [ none ↦ 104 ∷ 105 ∷ [] | some text ↦ text ];
}

reading-SeesOnly : (path : CString) → SeesOnly path (reading path)
reading-SeesOnly path d e same =
    ap
      (λ c. record (world_of keeping) {
        fread = λ _. elim c [ none ↦ 104 ∷ 105 ∷ [] | some text ↦ text ];
      })
      same

service_worker_comm_example :
    (t : Work) × (u : Work) × (then_run
        (service_worker 100 ((some (asked_for 0), reading (97 ∷ []) []) ∷ []) two_taken)
        (λ _ x. service_worker 100 ((some (asked_for 1), reading (98 ∷ []) x.disk) ∷ []) x)
      ≡ ok tt t)
    × (then_run
          (service_worker 100 ((some (asked_for 1), reading (98 ∷ []) []) ∷ []) two_taken)
          (λ _ x. service_worker 100 ((some (asked_for 0), reading (97 ∷ []) x.disk) ∷ []) x)
        ≡ ok tt u)
    × Alike t u
service_worker_comm_example =
    service_worker_comm 100 (reading (97 ∷ [])) (reading (98 ∷ [])) (asked_for 0) (asked_for 1)
      two_taken (entry_of true false file) (entry_of true false other_file) _ _ refl
      (any-CanServe 0 file (omega arith) refl (omega arith))
      (any-CanServe 1 other_file (omega arith) refl (omega arith)) (omega arith)
      (reading-SeesOnly (97 ∷ [])) (reading-SeesOnly (98 ∷ [])) (λ same. distinct (ap first same))
      (λ same. shorter (ap length same)) (λ same. shorter (ap length same))
  where
    first : CString → ℕ
    first [] = 0
    first (b ∷ bs) = b

    distinct : ◌≢◌ {A = ℕ} 97 98
    distinct = omega arith

    shorter : ◌≢◌ {A = ℕ} 12 1
    shorter = omega arith
