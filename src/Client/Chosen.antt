-- ===== src/Client/Chosen.antt =====
-- client.c: what the options make of the variables of `main`, whatever library it is linked with.
use tinyfile.Common.{◌<◌, ◌≡◌, ◌≢◌, refl, true, none, some, [], ◌∷◌, arith, ltb, length}
use tinyfile.Common.Run.{ok}
use tinyfile.Types.{CString}
use tinyfile.Api.Session.{same_name}
use tinyfile.Library.{Library}
use tinyfile.Client.{
  file, files, state, Method, async_method, sync_method, unset_method, no_options, Program,
  using_file, using_files, using_state, async_word, sync_word, choose_method, copy_path, parse,
}

abbrev pub word_of : Method → CString
word_of async_method = async_word
word_of sync_method = sync_word
word_of unset_method = []

module _ {S : Type 0} (l : Library S) (path : CString) (short : length path < 150)
    (s : Program S) where
  -- A list of files, and one of the two methods.
  pub parse-files :
      (m : Method)
      → m ≢ unset_method
      → parse l (files path ∷ state (word_of m) ∷ []) no_options s
        ≡ ok
            (some (record { file_path = none; file_list_path = some path; call_method = m }))
            (record s { printed = using_state (word_of m) ∷ using_files path ∷ s.printed })
  unfolding parse choose_method copy_path same_name
  parse-files async_method chosen =
      let fits : ltb (length path) 150 ≡ true = ground (arith, short) in rw fits refl
  parse-files sync_method chosen =
      let fits : ltb (length path) 150 ≡ true = ground (arith, short) in rw fits refl
  parse-files unset_method chosen = absurd (chosen refl)

  -- One file, and one of the two methods.
  pub parse-file :
      (m : Method)
      → m ≢ unset_method
      → parse l (file path ∷ state (word_of m) ∷ []) no_options s
        ≡ ok
            (some (record { file_path = some path; file_list_path = none; call_method = m }))
            (record s { printed = using_state (word_of m) ∷ using_file path ∷ s.printed })
  unfolding parse choose_method copy_path same_name
  parse-file async_method chosen =
      let fits : ltb (length path) 150 ≡ true = ground (arith, short) in rw fits refl
  parse-file sync_method chosen =
      let fits : ltb (length path) 150 ≡ true = ground (arith, short) in rw fits refl
  parse-file unset_method chosen = absurd (chosen refl)
