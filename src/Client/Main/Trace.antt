-- ===== src/Client/Main/Trace.antt =====
-- client.c: the calls that `main` makes of the library, in order, for a list of files.
use tinyfile.Common.{ℕ, ◌^◌, ◌<◌, ◌≡◌, ◌≢◌, refl, true, some, List, [], ◌∷◌, ◌++◌, map, length}
use tinyfile.Common.Run.{ok}
use tinyfile.Types.{Arg, CString, EntryIdx}
use tinyfile.Library.{Library}
use tinyfile.Client.{
  files, state, Method, async_method, sync_method, Program, Message, using_files, using_state,
  many_async, many_sync,
}
use tinyfile.Client.Reading.Files.{ArePaths, print, args_of, read_args-print, count_lines-print}
use tinyfile.Client.Elapsed.{elapsed}
use tinyfile.Client.Chosen.{word_of, parse-files}
use tinyfile.Client.Main.{
  World, returned_0, async_join, submit, sync_call, call_all, join_all, report_many, many, perform,
  work, main,
}

-- A call, as a library may note it down.
pub data Event : Type 0 where
  inits exits : Event
  syncs asyncs : Arg → Event
  waits : EntryIdx → Event
  joins : List EntryIdx → Event
  sizes : ℕ → Event

-- A library that notes down its calls, last first, and answers as it is told to.
abbrev pub recorder :
    (key : Arg → EntryIdx) → (out : Arg → Arg) → (got : EntryIdx → Arg) → Library (List Event)
recorder key out got = record {
  tinyfile_init = λ s. ok 0 (inits ∷ s);
  tinyfile_exit = λ s. ok 0 (exits ∷ s);
  tinyfile_sync = λ arg service p s. ok (0, some (out arg)) (syncs arg ∷ s);
  tinyfile_async = λ arg service p s. ok (0, some (key arg)) (asyncs arg ∷ s);
  tinyfile_async_wait = λ idx s. ok (0, got idx) (waits idx ∷ s);
  tinyfile_async_join = λ idxs num outs s. ok (0, outs) (joins idxs ∷ s);
  tinyfile_set_shm_size = λ size s. ok tt (sizes size ∷ s);
}

-- Events put on a list one after the other.
abbrev pub log : List Event → List Event → List Event
log [] s = s
log (e ∷ es) s = log es (e ∷ s)

log-append : (es fs s : List Event) → log (es ++ fs) s ≡ log fs (log es s)
log-append [] fs s = refl
log-append (e ∷ es) fs s = log-append es fs (e ∷ s)

module _ (key : Arg → EntryIdx) (out : Arg → Arg) (got : EntryIdx → Arg) where
  -- A call for each file, in order; if they are asynchronous, then a wait for each key.
  abbrev pub expected : Method → List Arg → List Event
  expected async_method args = map asyncs args ++ map waits (map key args)
  expected sync_method args = map syncs args
  expected Method.unset_method args = []

  abbrev logged : List Event → Program (List Event) → Program (List Event)
  logged es s = record s { library = log es s.library }

  call_all-sync :
      (args : List Arg) (s : Program (List Event))
      → call_all (recorder key out got) sync_method args s
        ≡ ok (some []) (logged (map syncs args) s)
  unfolding call_all sync_call
  call_all-sync [] s = refl
  call_all-sync (a ∷ args) s = call_all-sync args _

  call_all-async :
      (args : List Arg) (s : Program (List Event))
      → call_all (recorder key out got) async_method args s
        ≡ ok (some (map key args)) (logged (map asyncs args) s)
  unfolding call_all submit
  call_all-async [] s = refl
  call_all-async (a ∷ args) s =
      rw (call_all-async args (record s { library = asyncs a ∷ s.library })) refl

  join_all-log :
      (idxs : List EntryIdx) (s : Program (List Event))
      → join_all (recorder key out got) idxs s ≡ ok tt (logged (map waits idxs) s)
  unfolding join_all async_join
  join_all-log [] s = refl
  join_all-log (i ∷ idxs) s = join_all-log idxs _

  abbrev pub report : World → Method → ℕ → Message
  report w async_method n = many_async n (elapsed w.before w.after)
  report w sync_method n = many_sync n (elapsed w.before w.after)
  report w Method.unset_method n = many_sync n (elapsed w.before w.after)

  module _ (w : World) (path : CString) (ps : List CString)
      (opens : w.fopen path ≡ some (print ps [])) (seeks : w.fseek ≡ true) (are : ArePaths ps)
      (some_file : 0 < length ps) (few : length ps < 2 ^ 31) where
    many-logged :
        (m : Method) (s : Program (List Event))
        → m ≢ Method.unset_method
        → many (recorder key out got) w m path s
          ≡ ok true (record s {
            library = log (expected m (args_of w.unset ps)) s.library;
            printed = report w m (length ps) ∷ s.printed;
          })
    unfolding many report_many
    many-logged async_method s chosen =
        rw
          (
            opens,
            many,
            seeks,
            read_args-print w.unset ps s are some_file few,
            call_all-async (args_of w.unset ps) s,
            join_all-log (map key (args_of w.unset ps))
                (logged (map asyncs (args_of w.unset ps)) s),
            count_lines-print ps [] are tt few,
            log-append (map asyncs (args_of w.unset ps)) (map waits (map key (args_of w.unset ps)))
                s.library,
          )
          refl
    many-logged sync_method s chosen =
        rw
          (
            opens,
            many,
            seeks,
            read_args-print w.unset ps s are some_file few,
            call_all-sync (args_of w.unset ps) s,
            join_all-log [] (logged (map syncs (args_of w.unset ps)) s),
            count_lines-print ps [] are tt few,
          )
          refl
    many-logged Method.unset_method s chosen = absurd (chosen refl)

    -- The client, linked with a library that notes down its calls and of which every call succeeds
    -- (`recorder`), with the options for a list of files, whose path fits its array, and for SYNC or ASYNC, if
    -- the list opens, can be rewound and has one path a line, at least one and fewer than 2 ^ 31 of them: the client makes these calls and no
    -- others: `tinyfile_init`, a call for each file in the order of the list, with ASYNC then a wait for each
    -- of the keys that the calls gave, and `tinyfile_exit`. It returns 0, and prints the number of the
    -- files and the time.
    pub main-logged :
        (m : Method) (s : Program (List Event))
        → m ≢ Method.unset_method
        → length path < 150
        → w.options ≡ files path ∷ state (word_of m) ∷ []
        → main (recorder key out got) w s
          ≡ ok returned_0 (record {
            library = exits ∷ log (expected m (args_of w.unset ps)) (inits ∷ s.library);
            printed =
                report w m (length ps) ∷ using_state (word_of m) ∷ using_files path ∷ s.printed;
          })
    unfolding main work perform
    main-logged m s chosen short options =
        rw
          (
            options,
            parse-files (recorder key out got) path short s m chosen,
            many-logged m _ chosen,
          )
          refl
