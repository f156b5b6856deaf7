-- ===== src/Client/Main/Served.antt =====
-- The whole program from its first line to its last: client.c with src/api/api.c, while the server serves
-- what is sent.
use tinyfile.Common.{ℕ, ◌<◌, ◌^◌, ◌≡◌, true, some, List, [], ◌∷◌, ◌++◌, arith, length, ◌∙◌, ap, sym}
use tinyfile.Common.Run.{ok}
use tinyfile.Common.Returns
use tinyfile.Common.Returns.{Returns, returns}
use tinyfile.Types.{Arg, CString}
use tinyfile.Api.Requests.{Call}
use tinyfile.Server.Compress.{Disk, until_nul, suffix}
use tinyfile.Server.Compress.Results.{Reads, block, compress_service-writes}
use tinyfile.System.Idle.{Serves}
use tinyfile.Library.{Running, library}
use tinyfile.Library.Runs.{Live, SameWorld, init-Live}
use tinyfile.Client.{
  file, files, state, sync_method, Program, using_file, using_files, using_state, one_sync,
  many_sync, compressed_file, sync_word,
}
use tinyfile.Client.Chosen.{parse-file, parse-files}
use tinyfile.Client.Elapsed.{elapsed}
use tinyfile.Client.Reading.Files.{ArePaths, print, args_of}
use tinyfile.Client.Main
use tinyfile.Client.Main.{returned_0, Status, perform, work, main}
use tinyfile.Client.Main.Ended.{CanRun, Ended, work-Ended}
use tinyfile.Client.Main.Whole.{AllServed, many-Live, one-Live}

-- What two runs that are the same return and leave.
the-result : {A : Type 0} {a b : A} {d e : Disk} → ok a d ≡ ok b e → a ≡ b
the-result same = cc

the-disk : {A : Type 0} {a b : A} {d e : Disk} → ok a d ≡ ok b e → d ≡ e
the-disk same = cc

module _ (size : ℕ) (w : Main.World) where
  -- The library starts with nothing asked of it.
  starts_Live :
      (r : Running)
      → CanRun size r
      → Returns
          (λ code t. Live size r.heap r.session.queues r.session.shms 0 r.calls t × SameWorld r t)
          ((library size).tinyfile_init r)
  starts_Live r can =
      Returns.weaken (λ code t (zero_code, live, world). (live, world))
        (init-Live size r can.positive can.room can.opens can.closed can.small can.small_max)

  module _ (path : CString) (s : Program Running) (can : CanRun size s.library) where
    -- A run with SYNC and a list of files, whose path fits its array, of a library that can run (`CanRun`:
    -- not initialised, with room for two entries, and no call of the system fails), if the list opens, can be
    -- rewound and has one path a line, at least one and fewer than 2 ^ 31 of them, and each request that is made in its
    -- turn is, after some polls, taken from the queue and sent by the client's worker and received and
    -- served by the server's (`AllServed`): the client returns, with no fault and no waiting for ever. It
    -- returns 0, has made a request for each file, has printed the number of the files and the time, has
    -- removed its queues and its memory object, and leaves the library not initialised.
    pub main-served :
        length path < 150
        → (ps : List CString) (outs : List Arg) (before after : Disk)
        → w.options ≡ files path ∷ state sync_word ∷ []
        → w.fopen path ≡ some (print ps [])
        → w.fseek ≡ true
        → ArePaths ps
        → 0 < length ps
        → length ps < 2 ^ 31
        → AllServed size s.library.heap s.library.calls (args_of w.unset ps) outs before after
        → Returns
            (Ended
              (many_sync (length ps) (elapsed w.before w.after)
                ∷ using_state sync_word
                ∷ using_files path
                ∷ s.printed)
              []
              s.library)
            (main (library size) w s)
    unfolding main perform
    main-served short ps outs before after options opens seeks are some_file few served =
        rw (options, parse-files (library size) path short s sync_method (λ e. cc))
          (work-Ended size w _
            (record s { printed = using_state sync_word ∷ using_files path ∷ s.printed }) _ _ _ can
            (starts_Live s.library can)
            λ t live printed.
              Returns.weaken
                (λ done u (right, last, world, said). (
                  right,
                  last.is_open,
                  last.idle.queue,
                  world,
                  said ∙ ap (λ ms. many_sync (length ps) (elapsed w.before w.after) ∷ ms) printed,
                  last.given,
                ))
                (many-Live size w path ps s.library.calls outs before after t opens seeks are served
                  live some_file few))

    -- The same, for one file.
    main-one :
        length path < 150
        → (c : Call) (rest : List Call) (out : Arg) (before after : Disk)
        → w.options ≡ file path ∷ state sync_word ∷ []
        → s.library.calls ≡ c ∷ rest
        → Serves size s.library.heap c
            (record (w.unset) { source_file_path = path })
            out
            before
            after
        → Returns
            (Ended
              (compressed_file out.compressed_file_path
                ∷ one_sync (elapsed w.before w.after)
                ∷ using_state sync_word
                ∷ using_file path
                ∷ s.printed)
              rest
              s.library)
            (main (library size) w s)
    unfolding main perform
    main-one short c rest out before after options given serves =
        rw (options, parse-file (library size) path short s sync_method (λ e. cc))
          (work-Ended size w _
            (record s { printed = using_state sync_word ∷ using_file path ∷ s.printed }) _ _ _ can
            (starts_Live s.library can)
            λ t live printed.
              Returns.weaken
                (λ done u (right, last, world, said). (
                  right,
                  last.is_open,
                  last.idle.queue,
                  world,
                  said
                      ∙ ap
                          (λ ms.
                            compressed_file out.compressed_file_path
                            ∷ one_sync (elapsed w.before w.after)
                            ∷ ms)
                          printed,
                  last.given,
                ))
                (one-Live size w path {calls = rest} c t (rw (← given) live) serves))

    -- A run of the client with SYNC and one file, from the options to the end, of a library that can run
    -- (`CanRun`), if its request is, after some polls, taken from the queue and sent by the client's worker
    -- and received and served by the server's (`Serves`), and the file can be read and compressed and the
    -- new one opened, and the path leaves room for the suffix: the server writes the bytes of the block up
    -- to the first NUL to the path with ".compressed" behind it, and the client returns 0, has printed that
    -- path and the time, has made that one request, has removed its queues and its memory object, and leaves the library not
    -- initialised.
    pub main-compresses :
        (c : Call) (rest : List Call) (out : Arg) (before after : Disk) (bytes : List ℕ)
        (text : CString)
        → w.options ≡ file path ∷ state sync_word ∷ []
        → s.library.calls ≡ c ∷ rest
        → (serves : Serves size s.library.heap c
            (record (w.unset) { source_file_path = path })
            out
            before
            after)
        → Reads serves.world (record (w.unset) { source_file_path = path }) bytes
        → length path < 139
        → serves.world.fopen_write (path ++ suffix) ≡ true
        → until_nul (block serves.world bytes) ≡ some text
        → (after ≡ (path ++ suffix, text) ∷ before)
          × Returns
              (Ended
                (compressed_file (path ++ suffix)
                  ∷ one_sync (elapsed w.before w.after)
                  ∷ using_state sync_word
                  ∷ using_file path
                  ∷ s.printed)
                rest
                s.library)
              (main (library size) w s)
    main-compresses c rest out before after bytes text options given serves reads fits opens nul =
        let short : length path < 150 = omega (arith, fits) in
        let wrote =
          compress_service-writes serves.world (record (w.unset) { source_file_path = path }) bytes
            reads before text fits opens nul in
        let same : ok (serves.code, out) after
            ≡ ok (0, record { source_file_path = path; compressed_file_path = path ++ suffix })
                ((path ++ suffix, text) ∷ before) =
          sym serves.ran ∙ wrote in
        let path_of : out.compressed_file_path ≡ path ++ suffix =
          ap (λ (code, a). a.compressed_file_path) (the-result same) in
        (
          the-disk same,
          rw (← path_of) (main-one short c rest out before after options given serves),
        )
