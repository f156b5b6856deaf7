-- ===== src/Client/Main/Answered.antt =====
-- The whole program with ASYNC: client.c with src/api/api.c submits a list of files, and the server serves
-- what was sent while the client waits.
use tinyfile.Common.{
  ℕ, ◌+◌, ◌/◌, ◌<◌, ◌^◌, ◌≤◌, ◌≡◌, refl, true, some, List, [], ◌∷◌, ◌++◌, map, arith, length,
  replicate, ◌∙◌, ap,
}
use native.Mathlib.Nat.{div-le_self}
use tinyfile.Common.Returns
use tinyfile.Common.Returns.{Returns, returns}
use tinyfile.Common.Memory.{Heap}
use tinyfile.Types.{EntryIdx, Arg, CString, minus_one}
use tinyfile.RequestQ.{Node}
use tinyfile.Server.Compress
use tinyfile.Server.Compress.{Disk}
use tinyfile.Server.Worker.Batch.{Compresses, Compresses-length}
use tinyfile.Api.{Others}
use tinyfile.Api.Requests.{Call}
use tinyfile.System.Transport.{delivered}
use tinyfile.Library.{Running, library}
use tinyfile.Library.Runs.{SameWorld, init-Opened}
use tinyfile.Library.Backlog.{Pending, Answered, wait-first, Opened-Pending}
use tinyfile.Client.{
  files, state, async_method, Program, using_files, using_state, many_async, async_word,
}
use tinyfile.Client.Chosen.{parse-files}
use tinyfile.Client.Elapsed.{elapsed}
use tinyfile.Client.Reading.Files.{
  ArePaths, print, args_of, read_args-print, count_lines-print, length-args_of,
}
use tinyfile.Client.Main
use tinyfile.Client.Main.{async_join, join_all, many, report_many, perform, main}
use tinyfile.Client.Main.Ended.{CanRun, Ended, work-Ended}
use tinyfile.Client.Main.Submitted.{
  AllAsked, Submitted, cells_from, cells_from-Batch, up_from, call_all-Pending, async_join-Returns,
  join_all-Answered,
}
use tinyfile.Client.Main.Whole.{SameWorld-trans}

-- What the world gives to the waits: at the first, after some polls, the backlog is sent and served; at
-- the others there may be anything behind the first poll.
abbrev pub waits_for :
    (size : ℕ)
    → (server : EntryIdx → Compress.World) → Disk
    → (polls rounds : ℕ) → List Others
    → List (List Others)
    → List (List Others)
waits_for size server before polls rounds rest rests =
    (replicate polls (λ u. u) ++ (delivered size server before rounds ∷ rest))
    ∷ map (λ later. (λ u. u) ∷ later) rests

-- The library as it starts: nothing is submitted, and there are as many entries as there is room for.
abbrev Started : (size : ℕ) → Running → Running → Type 0
Started size r t =
    Pending size r.heap r.session.queues r.session.shms 0 [] r.calls r.waits t
    × (t.session.api.mapped / size ≡ r.session.api.shm_size / size)

starts_Pending :
    (size : ℕ) (r : Running)
    → CanRun size r
    → Returns (λ code t. Started size r t × SameWorld r t) ((library size).tinyfile_init r)
starts_Pending size r can =
    Returns.weaken
      (λ code t (u, same, (opened, started)). (
        Opened-Pending size r t code u can.positive same opened started,
        rw same (record { exit_rounds = refl; sends = refl; unlinks = refl }),
      ))
      (init-Opened size r can.opens can.closed can.small can.small_max)

module _ (size : ℕ) (server : EntryIdx → Compress.World) (before after : Disk) (polls rounds : ℕ)
    (rest : List Others) (rests : List (List Others)) where
  -- The threads of a list with one file at least, once all the files are submitted.
  join_all-served :
      {h : Heap Node} {qs ms : List CString} (a : Arg) (args outs : List Arg) (calls : List Call)
      (t : Program Running) (s : Program Running)
      → AllAsked h 0 [] calls (a ∷ args)
      → Pending size h qs ms
          (0 + length (a ∷ args))
          (cells_from 0 calls)
          []
          (waits_for size server before polls rounds rest rests)
          t.library
      → Submitted 0 (a ∷ args) s t
      → length (a ∷ args) ≤ rounds
      → length (a ∷ args) ≤ s.library.session.api.mapped / size / 2
      → length (a ∷ args) ≤ minus_one
      → Compresses server 0 (a ∷ args) outs before after
      → length rests ≡ length args
      → Returns
          (λ _ u.
            Answered size qs ms (length outs) [] [] u.library
            × SameWorld t.library u.library
            × (u.printed ≡ t.printed))
          (join_all (library size) (up_from 0 (length (a ∷ args))) t)
  unfolding join_all
  join_all-served a args [] calls t s asked pending left fuel room few makes same = absurd makes
  join_all-served {h} {qs} {ms} a args (o ∷ outs) calls t s asked pending left fuel room few makes
        same =
      let answers = Compresses-length server 0 (a ∷ args) (o ∷ outs) before after makes in
      let (many_requests, many_cells, batch) =
        cells_from-Batch h 0 [] calls (a ∷ args) asked (omega (arith, few)) in
      Returns.chain
        (async_join-Returns size 0
          (Answered size qs ms 1 outs (map (λ later. (λ u. u) ∷ later) rests)) t
          (wait-first size t.library a args o outs server before after polls rounds rest pending
            (omega (arith, many_cells, fuel)) many_requests (omega (arith, answers))
            (rw left.mapped (omega (arith, room))) batch left.waiting makes))
        λ out u (right, next, world, printed).
          let paired : length args ≡ length outs = omega (arith, answers) in
          rw paired (
            Returns.weaken
              (λ _ v (last, worlds, printed').
                let count : 1 + length outs ≡ length (o ∷ outs) = omega arith in
                (
                  rw (← count) last,
                  SameWorld-trans t.library u.library v.library world worlds,
                  printed' ∙ printed,
                ))
              (join_all-Answered size 1 outs rests u next (omega (arith, same, answers))))

  module _ (w : Main.World) (path : CString) (s : Program Running) (can : CanRun size s.library)
      (short : length path < 150) where
    -- The branch for a list of files.
    many-Answered :
        (p : CString) (ps : List CString) (outs : List Arg) {qs ms : List CString}
        (calls : List Call) (t : Program Running)
        → w.fopen path ≡ some (print (p ∷ ps) [])
        → w.fseek ≡ true
        → ArePaths (p ∷ ps)
        → length (args_of w.unset (p ∷ ps)) ≤ t.library.session.api.mapped / size / 2
        → length (args_of w.unset (p ∷ ps)) < 2 ^ 31
        → AllAsked s.library.heap 0 [] calls (args_of w.unset (p ∷ ps))
        → Pending size s.library.heap qs ms 0 [] calls
            (waits_for size server before polls rounds rest rests)
            t.library
        → length (args_of w.unset (p ∷ ps)) ≤ rounds
        → length rests ≡ length (args_of w.unset ps)
        → Compresses server 0 (args_of w.unset (p ∷ ps)) outs before after
        → Returns
            (λ done u.
              (done ≡ true)
              × Answered size qs ms (length outs) [] [] u.library
              × SameWorld t.library u.library
              × (u.printed ≡ many_async (length (p ∷ ps)) (elapsed w.before w.after) ∷ t.printed))
            (many (library size) w async_method path t)
    unfolding many report_many
    many-Answered p ps outs calls t opens seeks are room few asked pending fuel same makes =
        let args = args_of w.unset (p ∷ ps) in
        let some_file : 0 < length (p ∷ ps) = omega arith in
        let few31 : length (p ∷ ps) < 2 ^ 31 =
          omega (arith, few, length-args_of w.unset (p ∷ ps)) in
        rw (opens, many, seeks, read_args-print w.unset (p ∷ ps) t are some_file few31)
          (Returns.chain
            (call_all-Pending size 0 [] calls args t asked pending (omega (arith, room))
              (omega (arith, few)))
            λ keys u (rights, last, left). rw rights (
              Returns.chain
                (join_all-served (record (w.unset) { source_file_path = p }) (args_of w.unset ps)
                  outs calls u t asked last left fuel room (omega (arith, few)) makes same)
                λ _ v (answered, world, printed). rw (count_lines-print (p ∷ ps) [] are tt few31) (
                  returns (
                    refl,
                    answered,
                    SameWorld-trans t.library u.library v.library left.world world,
                    ap (λ ms. many_async (length (p ∷ ps)) (elapsed w.before w.after) ∷ ms)
                        (printed ∙ left.printed),
                  ))))

    -- A run with ASYNC and a list of one file or more, whose path fits its array, of a library that can run
    -- (`CanRun`), if the list opens, can be rewound and has one path a line, there are at least twice as many entries as
    -- files, each call gets rounds to find its entry and a node (`AllAsked`), and while the first thread
    -- polls, the client's worker takes all the requests from the queue and sends them and the server's
    -- receives and serves them (`waits_for`, with as many rounds as files at least), one after the other, with its own answers of the world for each, and
    -- with `outs` as what the service makes of the arguments: the client returns, with no fault and no
    -- waiting for ever. It returns 0, has made a request for each file, has printed the number of the
    -- files and the time, has removed its queues and its memory object, and leaves the library not
    -- initialised.
    pub main-answered :
        (p : CString) (ps : List CString) (outs : List Arg)
        → w.options ≡ files path ∷ state async_word ∷ []
        → w.fopen path ≡ some (print (p ∷ ps) [])
        → w.fseek ≡ true
        → ArePaths (p ∷ ps)
        → length (args_of w.unset (p ∷ ps)) ≤ s.library.session.api.shm_size / size / 2
        → AllAsked s.library.heap 0 [] s.library.calls (args_of w.unset (p ∷ ps))
        → s.library.waits ≡ waits_for size server before polls rounds rest rests
        → length (args_of w.unset (p ∷ ps)) ≤ rounds
        → length rests ≡ length (args_of w.unset ps)
        → Compresses server 0 (args_of w.unset (p ∷ ps)) outs before after
        → Returns
            (Ended
              (many_async (length (p ∷ ps)) (elapsed w.before w.after)
                ∷ using_state async_word
                ∷ using_files path
                ∷ s.printed)
              []
              s.library)
            (main (library size) w s)
    unfolding main perform
    main-answered p ps outs options opens seeks are room asked waits fuel same makes =
        rw (options, parse-files (library size) path short s async_method (λ e. cc))
          (work-Ended size w _
            (record s { printed = using_state async_word ∷ using_files path ∷ s.printed }) _ _
            (Started size s.library) can (starts_Pending size s.library can)
            λ t (pending, count) printed.
              Returns.weaken
                (λ done u (right, left, world, said). (
                  right,
                  left.is_open,
                  left.queue,
                  world,
                  said
                      ∙ ap (λ ms. many_async (length (p ∷ ps)) (elapsed w.before w.after) ∷ ms)
                          printed,
                  left.spent,
                ))
                (many-Answered p ps outs s.library.calls t opens seeks are (rw count room)
                  (omega (arith, room, can.small, div-le_self s.library.session.api.shm_size size))
                  asked (rw (← waits) pending) fuel same makes))
