-- ===== src/Client/Main.antt =====
-- client.c: `main`, from the options to the calls of the library and what is printed.
pub mod Answered
pub mod Ended
pub mod Keys
pub mod Trace
pub mod Served
pub mod Submitted
mod Tests
pub mod Whole
use tinyfile.Common.{
  ℕ, Bool, true, false, Option, none, some, List, [], ◌∷◌, not, if◌then◌else◌, length,
}
use tinyfile.Common.Run.{ok, fault, Cmd, pure, ◌>>=◌, ◌>>◌}
use tinyfile.Types.{Arg, CString, compress, EntryIdx, Priority}
use tinyfile.Library.{Library}
use tinyfile.Client.{
  Opt, Method, async_method, sync_method, unset_method, Options, no_options, Program, on_library,
  print, parse, Message, many_async, many_sync, one_async, one_sync, compressed_file,
}
use tinyfile.Client.Reading.{count_lines, read_args}
use tinyfile.Client.Elapsed.{Timespec, elapsed}

-- What the world gives to a run: the options, the bytes of the files that can be opened, whether
-- `fseek` succeeds, the clock before and after the calls, and what an argument on the stack holds.
pub record World : Type 0 where
  pub options : List Opt
  pub fopen : CString → Option (List ℕ)
  pub fseek : Bool
  pub before : Timespec
  pub after : Timespec
  pub unset : Arg

pub data Status : Type 0 where
  returned_0 exit_failure aborted : Status

abbrev pub priority : Priority
priority = 1

module _ {S : Type 0} (l : Library S) where
  -- The body of the thread `async_join`.
  pub async_join : EntryIdx → Cmd (Program S) Arg
  async_join entry_idx = do (code, out) ← on_library (l.tinyfile_async_wait entry_idx); pure out

  -- A key that a call did not write is read uninitialised.
  abbrev pub read_key : Option EntryIdx → Cmd (Program S) EntryIdx
  read_key none = λ _. fault
  read_key (some idx) = pure idx

  pub submit : Arg → Cmd (Program S) (Option EntryIdx)
  submit arg = do (code, key) ← on_library (l.tinyfile_async arg compress priority); pure key

  pub sync_call : Arg → Cmd (Program S) (Option Arg)
  sync_call arg = do (code, out) ← on_library (l.tinyfile_sync arg compress priority); pure out

  -- The loop over the files: the keys of the threads that it starts, `none` on `exit(EXIT_FAILURE)`.
  pub call_all : Method → List Arg → Cmd (Program S) (Option (List EntryIdx))
  call_all method [] = pure (some [])
  call_all async_method (arg ∷ args) = do
    key ← submit arg
    idx ← read_key key
    keys ← call_all async_method args
    pure (elim keys [ none ↦ none | some idxs ↦ some (idx ∷ idxs) ])
  call_all sync_method (arg ∷ args) = sync_call arg >> call_all sync_method args
  call_all unset_method (arg ∷ args) = pure none

  -- The threads, each of which waits for its key; here each runs when it is joined.
  pub join_all : List EntryIdx → Cmd (Program S) (Unit {0})
  join_all [] = pure tt
  join_all (idx ∷ idxs) = async_join idx >> join_all idxs

  pub report_many : World → Method → ℕ → Cmd (Program S) (Unit {0})
  report_many w async_method lines = print (many_async lines (elapsed w.before w.after))
  report_many w sync_method lines = print (many_sync lines (elapsed w.before w.after))
  report_many w unset_method lines = print (many_sync lines (elapsed w.before w.after))

  -- The branch for a list of files; `false` is `exit(EXIT_FAILURE)`.
  pub many : World → Method → CString → Cmd (Program S) Bool
  many w method path = elim (w.fopen path) [
    | none ↦ pure false
    | some bytes ↦ if not w.fseek then pure false else do
      args ← read_args w.unset bytes
      keys ← call_all method args
      elim keys [
        | none ↦ pure false
        | some idxs ↦ join_all idxs >> (report_many w method (count_lines bytes) >> pure true)
      ]
  ]

  -- The branch for one file: the argument that the call gave, `none` on `exit(EXIT_FAILURE)`. An `out`
  -- that was not written is printed uninitialised.
  pub call_one : World → Method → Arg → Cmd (Program S) (Option Arg)
  call_one w async_method arg = do
    key ← submit arg
    idx ← read_key key
    out ← async_join idx
    print (one_async (elapsed w.before w.after))
    pure (some out)
  call_one w sync_method arg = do
    out ← sync_call arg
    print (one_sync (elapsed w.before w.after))
    elim out [ none ↦ (λ _. fault) | some given ↦ pure (some given) ]
  call_one w unset_method arg = pure none

  pub one : World → Method → Option CString → Cmd (Program S) Bool
  one w method none = λ _. fault
  one w method (some path) = do
    out ← call_one w method (record (w.unset) { source_file_path = path })
    elim out [
      | none ↦ pure false
      | some given ↦ print (compressed_file given.compressed_file_path) >> pure true
    ]

  pub perform : World → Options → Cmd (Program S) Bool
  perform w o = elim o.file_list_path [
    | some path ↦ many w o.call_method path
    | none ↦ one w o.call_method o.file_path
  ]

  -- What follows the options: the results of `tinyfile_init` and `tinyfile_exit` are not looked at.
  pub work : World → Options → Cmd (Program S) Status
  work w o = do
    on_library l.tinyfile_init
    done ← perform w o
    if not done then pure exit_failure else on_library l.tinyfile_exit >> pure returned_0

  pub main : World → Cmd (Program S) Status
  main w = do
    parsed ← parse l w.options no_options
    elim parsed [ none ↦ pure aborted | some o ↦ work w o ]
