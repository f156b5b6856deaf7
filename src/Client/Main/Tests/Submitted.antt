-- ===== src/Client/Main/Tests/Submitted.antt =====
-- A library with room for the entries of two files, at which the theorem on a run with ASYNC applies.
use tinyfile.Common.{
  ℕ, zero, suc, some, replicate, ◌≢◌, ◌≡◌, refl, true, false, [], ◌∷◌, arith, length, ◌<◌,
}
use tinyfile.Common.Run.{ok}
use tinyfile.Common.Returns.{Returns}
use tinyfile.Types.{EntryIdx}
use tinyfile.Common.Memory.{null}
use tinyfile.RequestQ.Chain.{Cells, holds}
use tinyfile.Api.Requests.{Call}
use tinyfile.Api.Session.Tests.{idle, working, working-Succeeds, no_nodes}
use tinyfile.Api.Tests.{refusing, call_of}
use tinyfile.Server.Compress
use tinyfile.Server.Compress.{Disk, suffix, compress_service}
use tinyfile.Server.Compress.Results.{Reads, until_nul-append, compress_service-writes}
use tinyfile.Server.Compress.Tests.{world_of, keeping}
use tinyfile.System.Backlog.{Asked}
use tinyfile.Library.{Running, library}
use tinyfile.Client.{files, state, using_files, using_state, many_async, async_word}
use tinyfile.Client.Elapsed.{elapsed}
use tinyfile.Client.Main.{World, main}
use tinyfile.Client.Main.Answered.{waits_for, main-answered}
use tinyfile.Client.Main.Ended.{CanRun, Ended}
use tinyfile.Client.Main.Tests.{
  compressed, and_file, written, early, late, with_files, two_paths-ArePaths, first_arg, second_arg,
}

-- The second file holds other bytes, and more of them.
abbrev three_bytes : Compress.World
three_bytes = record (world_of keeping) { ftell = some 3; fread = λ _. 120 ∷ 121 ∷ 122 ∷ [] }

abbrev two_files : EntryIdx → Compress.World
two_files zero = world_of keeping
two_files (suc i) = three_bytes

three_bytes-Reads : Reads three_bytes second_arg (120 ∷ 121 ∷ 122 ∷ [])
three_bytes-Reads = record {
  opens = refl;
  ends = refl;
  size = refl;
  rewinds = refl;
  reads = refl;
  no_error = refl;
  block = refl;
  room = omega arith;
}

abbrev second_after : Disk
second_after = (99 ∷ suffix, 120 ∷ 121 ∷ 122 ∷ []) ∷ and_file first_arg []

second_written :
    compress_service three_bytes second_arg (and_file first_arg [])
    ≡ ok (0, compressed second_arg) second_after
second_written =
    compress_service-writes three_bytes second_arg (120 ∷ 121 ∷ 122 ∷ []) three_bytes-Reads
      (and_file first_arg []) (120 ∷ 121 ∷ 122 ∷ []) (omega arith) refl
      (until_nul-append (120 ∷ 121 ∷ 122 ∷ []) (replicate 31 0)
        (omega arith, (omega arith, (omega arith, tt))))

-- A library with room for four entries, and two calls that find theirs.
abbrev roomy : Running
roomy = record {
  session = record idle { api = record (idle.api) { shm_size = 400 } };
  opening = working;
  heap = no_nodes;
  exit_rounds = 1;
  sends = true;
  unlinks = true;
  calls = call_of [] ∷ record (call_of []) { fresh = 4 } ∷ [];
  waits = waits_for 100 two_files [] 2 2 [] ([] ∷ []);
}

roomy-CanRun : CanRun 100 roomy
roomy-CanRun = record {
  positive = omega arith;
  room = omega arith;
  small = omega arith;
  small_max = omega arith;
  closed = refl;
  opens = working-Succeeds;
  exits = omega arith;
  sends = refl;
  unlinks = refl;
}

call_of-Asked :
    (k : ℕ) (xs : Cells) (c : Call)
    → c ≡ record (call_of []) { fresh = c.fresh }
    → k < 2
    → length xs < 3
    → c.fresh ≢ null
    → holds c.fresh xs ≡ false
    → Asked no_nodes k xs c
call_of-Asked k xs c same few short nz apart = record {
  answers = refusing ∷ refusing ∷ [];
  finding = rw same refl;
  rounds = omega (arith, few);
  fresh = nz;
  unused = refl;
  apart = apart;
  walk = rw same short;
}

-- The program is given the list and the word ASYNC.
abbrev with_async : World
with_async = record with_files { options = files (102 ∷ []) ∷ state async_word ∷ [] }

main-answered_example :
    Returns
      (Ended
        (many_async 2 (elapsed early late) ∷ using_state async_word ∷ using_files (102 ∷ []) ∷ [])
        []
        roomy)
      (main (library 100) with_async (record { library = roomy; printed = [] }))
main-answered_example =
    main-answered 100 two_files [] second_after 2 2 [] ([] ∷ []) with_async (102 ∷ [])
      (record { library = roomy; printed = [] }) roomy-CanRun (omega arith) (97 ∷ 98 ∷ [])
      ((99 ∷ []) ∷ []) (compressed first_arg ∷ compressed second_arg ∷ []) refl refl refl
      two_paths-ArePaths (omega arith)
      (
        call_of-Asked 0 [] _ refl (omega arith) (omega arith) (omega arith) refl,
        (call_of-Asked 1 _ _ refl (omega arith) (omega arith) (omega arith) refl, tt),
      )
      refl (omega arith) refl
      (
        and_file first_arg [],
        0,
        written first_arg [] (omega arith),
        (second_after, 0, second_written, refl),
      )
