-- ===== src/Client/Main/Tests.antt =====
-- A concrete library and a server that serves it, at which the theorems on the whole program apply.
mod Submitted
use tinyfile.Common.{
  ℕ, ◌≢◌, ◌≡◌, refl, true, false, some, none, List, [], ◌∷◌, ◌++◌, arith, replicate, length, ◌<◌,
}
use tinyfile.Common.Run.{ok}
use tinyfile.Common.Returns.{Returns}
use tinyfile.Common.Memory.{null}
use tinyfile.RequestQ.Chain.{Cells, holds}
use tinyfile.Types.{Arg, CString}
use tinyfile.Api.Requests.{Call}
use tinyfile.Api.Session.Tests.{idle, working, working-Succeeds, no_nodes}
use tinyfile.Api.Tests.{arg_of, refusing, call_of}
use tinyfile.Server.Compress.{suffix, Disk, compress_service}
use tinyfile.Server.Compress.Results.{Reads, compress_service-writes}
use tinyfile.Server.Compress.Tests.{world_of, keeping, any-Reads, keeping-text}
use tinyfile.System.Backlog.{Asked}
use tinyfile.System.Idle.{Serves}
use tinyfile.System.Transport.{delivered}
use tinyfile.Library.{Running, library}
use tinyfile.Client.{
  file, files, state, using_file, using_files, using_state, one_sync, many_sync, compressed_file,
  sync_word, many_async, async_word,
}
use tinyfile.Client.Elapsed.{Timespec, elapsed}
use tinyfile.Client.Reading.Files.{ArePaths}
use tinyfile.Client.Main.{World, main}
use tinyfile.Client.Main.Answered.{waits_for, main-answered}
use tinyfile.Client.Main.Ended.{CanRun, Ended}
use tinyfile.Client.Main.Served.{main-served, main-compresses}

-- A call that is served after two polls, and what the service makes of its argument.
abbrev served_call : Disk → Call
served_call d = call_of (replicate 2 (λ u. u) ++ (delivered 100 (λ _. world_of keeping) d 1 ∷ []))

abbrev pub compressed : Arg → Arg
compressed arg = record arg { compressed_file_path = arg.source_file_path ++ suffix }

abbrev pub and_file : Arg → Disk → Disk
and_file arg d = (arg.source_file_path ++ suffix, 104 ∷ 105 ∷ []) ∷ d

pub written :
    (arg : Arg) (d : Disk)
    → length arg.source_file_path < 139
    → compress_service (world_of keeping) arg d ≡ ok (0, compressed arg) (and_file arg d)
written arg d fits =
    compress_service-writes (world_of keeping) arg (104 ∷ 105 ∷ []) (any-Reads arg) d
      (104 ∷ 105 ∷ []) fits refl keeping-text

served_call-Serves :
    (arg : Arg) (d : Disk)
    → length arg.source_file_path < 139
    → Serves 100 no_nodes (served_call d) arg (compressed arg) d (and_file arg d)
served_call-Serves arg d fits = record {
  answers = refusing ∷ refusing ∷ [];
  finding = refl;
  some_answers = omega arith;
  fresh = λ e. omega (arith, e);
  unused = refl;
  walk = omega arith;
  world = world_of keeping;
  polls = 2;
  rounds = 1;
  some_round = omega arith;
  rest = [];
  polling = refl;
  code = 0;
  ran =
      compress_service-writes (world_of keeping) arg (104 ∷ 105 ∷ []) (any-Reads arg) d
        (104 ∷ 105 ∷ []) fits refl keeping-text;
}

abbrev running : List Call → Running
running calls = record {
  session = idle;
  opening = working;
  heap = no_nodes;
  exit_rounds = 1;
  sends = true;
  unlinks = true;
  calls = calls;
  waits = [];
}

running-CanRun : (calls : List Call) → CanRun 100 (running calls)
running-CanRun calls = record {
  positive = omega arith;
  room = omega arith;
  small = omega arith;
  small_max = omega arith;
  closed = refl;
  opens = working-Succeeds;
  exits = omega arith;
  sends = refl;
  unlinks = refl;
}

abbrev pub early : Timespec
early = record { tv_sec = 10; tv_nsec = 900000000 }

abbrev pub late : Timespec
late = record { tv_sec = 12; tv_nsec = 100000001 }

-- The program is given one file.
abbrev pub with_file : World
with_file = record {
  options = file (97 ∷ []) ∷ state sync_word ∷ [];
  fopen = λ path. none;
  fseek = true;
  before = early;
  after = late;
  unset = arg_of 0;
}

main-compresses_example :
    (and_file (arg_of 97) [] ≡ (97 ∷ suffix, 104 ∷ 105 ∷ []) ∷ [])
    × Returns
        (Ended
          (compressed_file (97 ∷ suffix)
            ∷ one_sync (elapsed early late)
            ∷ using_state sync_word
            ∷ using_file (97 ∷ [])
            ∷ [])
          []
          (running (served_call [] ∷ [])))
        (main
          (library 100)
          with_file
          (record { library = running (served_call [] ∷ []); printed = [] }))
unfolding served_call-Serves
main-compresses_example =
    main-compresses 100 with_file (97 ∷ [])
      (record { library = running (served_call [] ∷ []); printed = [] })
      (running-CanRun (served_call [] ∷ [])) (served_call []) [] (compressed (arg_of 97)) []
      (and_file (arg_of 97) []) (104 ∷ 105 ∷ []) (104 ∷ 105 ∷ []) refl refl
      (served_call-Serves (arg_of 97) [] (omega arith)) (any-Reads (arg_of 97)) (omega arith) refl
      keeping-text

-- The program is given a list of two files, and the files' names are asked for one after the other.
abbrev pub with_files : World
with_files = record with_file {
  options = files (102 ∷ []) ∷ state sync_word ∷ [];
  fopen = λ path. some (97 ∷ 98 ∷ 10 ∷ 99 ∷ 10 ∷ []);
}

abbrev pub two_paths : List CString
two_paths = (97 ∷ 98 ∷ []) ∷ (99 ∷ []) ∷ []

pub two_paths-ArePaths : ArePaths two_paths
two_paths-ArePaths = (
  (omega arith, omega arith, (omega arith, omega arith, tt)),
  omega arith,
  ((omega arith, omega arith, tt), omega arith, tt),
)

abbrev pub first_arg : Arg
first_arg = record { source_file_path = 97 ∷ 98 ∷ []; compressed_file_path = [] }

abbrev pub second_arg : Arg
second_arg = record { source_file_path = 99 ∷ []; compressed_file_path = [] }

abbrev two_calls : List Call
two_calls = served_call [] ∷ served_call (and_file first_arg []) ∷ []

main-served_example :
    Returns
      (Ended
        (many_sync 2 (elapsed early late) ∷ using_state sync_word ∷ using_files (102 ∷ []) ∷ [])
        []
        (running two_calls))
      (main (library 100) with_files (record { library = running two_calls; printed = [] }))
main-served_example =
    main-served 100 with_files (102 ∷ []) (record { library = running two_calls; printed = [] })
      (running-CanRun two_calls) (omega arith) two_paths
      (compressed first_arg ∷ compressed second_arg ∷ []) []
      (and_file second_arg (and_file first_arg [])) refl refl refl two_paths-ArePaths (omega arith)
      (omega arith)
      (
        and_file first_arg [],
        served_call-Serves first_arg [] (omega arith),
        (
          and_file second_arg (and_file first_arg []),
          served_call-Serves second_arg (and_file first_arg []) (omega arith),
          refl,
        ),
      )
