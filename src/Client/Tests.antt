-- ===== src/Client/Tests.antt =====
-- Concrete lists of files, clocks and libraries, at which the theorems on the client apply.
use tinyfile.Common.{ℕ, ◌≡◌, ◌≢◌, refl, true, some, List, [], ◌∷◌, arith}
use tinyfile.Common.Run.{ok, fault}
use tinyfile.Types.{Arg, CString, EntryIdx}
use tinyfile.Api.Tests.{arg_of}
use tinyfile.Client.{
  files, state, async_method, unset_method, using_files, using_state, many_async, async_word,
}
use tinyfile.Client.Reading.{read_args}
use tinyfile.Client.Reading.Files.{ArePaths, args_of, read_args-print, read_args-unterminated}
use tinyfile.Client.Elapsed.{Timespec, elapsed}
use tinyfile.Client.Main.{World, returned_0, main}
use tinyfile.Client.Main.Trace.{inits, exits, asyncs, waits, recorder, main-logged}

abbrev two_paths : List CString
two_paths = (97 ∷ 98 ∷ []) ∷ (99 ∷ []) ∷ []

two_paths-ArePaths : ArePaths two_paths
two_paths-ArePaths = (
  (omega arith, omega arith, (omega arith, omega arith, tt)),
  omega arith,
  ((omega arith, omega arith, tt), omega arith, tt),
)

read_args-print_example :
    read_args {S = ℕ} (arg_of 0) (97 ∷ 98 ∷ 10 ∷ 99 ∷ 10 ∷ []) 7
    ≡ ok (args_of (arg_of 0) two_paths) 7
read_args-print_example =
    read_args-print (arg_of 0) two_paths 7 two_paths-ArePaths (omega arith) (omega arith)

read_args-unterminated_example :
    read_args {S = ℕ} (arg_of 0) (97 ∷ 98 ∷ 10 ∷ 99 ∷ 10 ∷ 100 ∷ []) 7 ≡ fault
read_args-unterminated_example =
    read_args-unterminated (arg_of 0) two_paths 100 [] 7 two_paths-ArePaths
      (omega arith, omega arith, tt)

abbrev early : Timespec
early = record { tv_sec = 10; tv_nsec = 900000000 }

abbrev late : Timespec
late = record { tv_sec = 12; tv_nsec = 100000001 }

-- A run with ASYNC and a list of the two paths.
abbrev world : World
world = record {
  options = files (102 ∷ []) ∷ state async_word ∷ [];
  fopen = λ path. some (97 ∷ 98 ∷ 10 ∷ 99 ∷ 10 ∷ []);
  fseek = true;
  before = early;
  after = late;
  unset = arg_of 0;
}

abbrev first_arg : Arg
first_arg = record { source_file_path = 97 ∷ 98 ∷ []; compressed_file_path = [] }

abbrev second_arg : Arg
second_arg = record { source_file_path = 99 ∷ []; compressed_file_path = [] }

abbrev key_of : Arg → EntryIdx
key_of arg = 5

main-logged_example :
    main
      (recorder key_of (λ a. a) (λ idx. arg_of idx))
      world
      (record { library = []; printed = [] })
    ≡ ok returned_0 (record {
      library = exits ∷ waits 5 ∷ waits 5 ∷ asyncs second_arg ∷ asyncs first_arg ∷ inits ∷ [];
      printed =
          many_async 2 (elapsed early late) ∷ using_state async_word ∷ using_files (102 ∷ []) ∷ [];
    })
main-logged_example =
    main-logged key_of (λ a. a) (λ idx. arg_of idx) world (102 ∷ []) two_paths refl refl
      two_paths-ArePaths (omega arith) (omega arith) async_method
      (record { library = []; printed = [] }) distinct (omega arith) refl
  where
    distinct : async_method ≢ unset_method
    distinct e = cc
