-- ===== src/Client.antt =====
-- client.c: the command line client, over the interface of the library. What `getopt_long` finds, the
-- files that can be read and the two readings of the clock are given.
pub mod Chosen
pub mod Elapsed
pub mod Main
pub mod Reading
mod Tests
use tinyfile.Common.{
  ℕ, Bool, true, false, Option, none, some, List, [], ◌∷◌, ltb, if◌then◌else◌, length,
}
use tinyfile.Common.Run.{Run, ok, fault, blocked, out_of_fuel, Cmd, pure, ◌>>=◌, ◌>>◌}
use tinyfile.Types.{Arg, CString}
use tinyfile.Api.Session.{same_name}
use tinyfile.Library.{Library}

-- An option as `getopt_long` reports it; the number is what `strtol` makes of its argument.
pub data Opt : Type 0 where
  file files state : CString → Opt
  sms_size : ℕ → Opt
  unknown : Opt

-- `call_method`; `unset_method` stands for a variable that holds neither letter.
pub data Method : Type 0 where
  async_method sync_method unset_method : Method

-- The variables that the options set; a buffer that was not written is `none`, and `file_list` is
-- whether the path of the list was.
pub record Options : Type 0 where
  pub file_path : Option CString
  pub file_list_path : Option CString
  pub call_method : Method

abbrev pub no_options : Options
no_options = record { file_path = none; file_list_path = none; call_method = unset_method }

-- A number of milliseconds, as what is added less what is taken away.
pub record Millis : Type 0 where
  pub plus : ℕ
  pub minus : ℕ

-- What the client prints to its output, by format and arguments.
pub data Message : Type 0 where
  using_file using_files using_state : CString → Message
  using_sms_size : ℕ → Message
  unexpected_state_value required_options : Message
  many_async many_sync : ℕ → Millis → Message
  one_async one_sync : Millis → Message
  compressed_file : CString → Message

-- The state of the library, and what was printed, last first.
pub record Program (S : Type 0) : Type 0 where
  pub library : S
  pub printed : List Message

abbrev pub put_library : {S A : Type 0} → Program S → Run S A → Run (Program S) A
put_library s (ok a t) = ok a (record s { library = t })
put_library s fault = fault
put_library s blocked = blocked
put_library s out_of_fuel = out_of_fuel

abbrev pub on_library : {S A : Type 0} → Cmd S A → Cmd (Program S) A
on_library m s = put_library s (m s.library)

abbrev pub print : {S : Type 0} → Message → Cmd (Program S) (Unit {0})
print m s = ok tt (record s { printed = m ∷ s.printed })

-- "ASYNC" and "SYNC"
abbrev pub async_word : CString
async_word = 65 ∷ 83 ∷ 89 ∷ 78 ∷ 67 ∷ []

abbrev pub sync_word : CString
sync_word = 83 ∷ 89 ∷ 78 ∷ 67 ∷ []

-- An unexpected value is only reported.
pub choose_method : {S : Type 0} → CString → Method → Cmd (Program S) Method
choose_method word old =
    if same_name word async_word
    then pure async_method
    else if same_name word sync_word
    then pure sync_method
    else print unexpected_state_value >> pure old

-- `strcpy` of a path into `char[150]`.
pub copy_path : {S : Type 0} → CString → Cmd (Program S) CString
copy_path path = if ltb (length path) 150 then pure path else (λ _. fault)

-- The loop over the options; `none` is `abort()`.
pub parse : {S : Type 0} → Library S → List Opt → Options → Cmd (Program S) (Option Options)
parse l [] o = pure (some o)
parse l (file value ∷ rest) o = do
  print (using_file value)
  path ← copy_path value
  parse l rest (record o { file_path = some path })
parse l (files value ∷ rest) o = do
  print (using_files value)
  path ← copy_path value
  parse l rest (record o { file_list_path = some path })
parse l (state value ∷ rest) o = do
  print (using_state value)
  method ← choose_method value o.call_method
  parse l rest (record o { call_method = method })
parse l (sms_size size ∷ rest) o = do
  print (using_sms_size size)
  on_library (l.tinyfile_set_shm_size size)
  parse l rest o
parse l (unknown ∷ rest) o = print required_options >> pure none
