-- ===== src/Client/Main/Whole.antt =====
-- The whole program: client.c linked with src/api/api.c, while the server serves what is sent.
use tinyfile.Common.{
  ℕ, ◌+◌, ◌<◌, ◌^◌, ◌≤◌, ◌≡◌, refl, true, some, List, [], ◌∷◌, arith, length, ◌∙◌,
}
use tinyfile.Common.Run.{Run}
use tinyfile.Common.Returns
use tinyfile.Common.Returns.{Returns, returns}
use tinyfile.Common.Memory.{Heap}
use tinyfile.Types.{Arg, CString, minus_one}
use tinyfile.RequestQ.{Node}
use tinyfile.Api.Requests.{Call}
use tinyfile.Server.Compress.{Disk}
use tinyfile.System.Idle.{Serves}
use tinyfile.Library.{Running, library}
use tinyfile.Library.Runs.{Live, SameWorld, sync-Live}
use tinyfile.Client.{sync_method, Program, one_sync, many_sync, compressed_file, put_library}
use tinyfile.Client.Elapsed.{elapsed}
use tinyfile.Client.Reading.Files.{
  ArePaths, print, args_of, read_args-print, count_lines-print, length-args_of,
}
use tinyfile.Client.Main
use tinyfile.Client.Main.{
  returned_0, sync_call, call_all, join_all, report_many, many, call_one, one, perform, work, main,
}

-- The calls get what they need so that each argument is served in its turn: `outs` are what the service
-- makes of the arguments, and `after` is what it makes of the files `before`.
abbrev pub AllServed :
    ℕ → Heap Node → List Call → (args outs : List Arg) → (before after : Disk) → Type 0
AllServed size h [] [] [] d e = d ≡ e
AllServed size h (c ∷ cs) (a ∷ args) (o ∷ os) d e =
    (m : Disk) × Serves size h c a o d m × AllServed size h cs args os m e
AllServed size h [] [] (o ∷ os) d e = ⊥
AllServed size h [] (a ∷ args) os d e = ⊥
AllServed size h (c ∷ cs) [] os d e = ⊥
AllServed size h (c ∷ cs) (a ∷ args) [] d e = ⊥

-- A command on the library that returns, in the whole program.
pub library-Returns :
    {S A : Type 0} {P : A → S → Type 0} (s : Program S) {r : Run S A}
    → Returns P r
    → Returns (λ a t. (u : S) × (t ≡ record s { library = u }) × P a u) (put_library s r)
library-Returns s (returns p) = returns (_, refl, p)

pub SameWorld-trans : (r s t : Running) → SameWorld r s → SameWorld s t → SameWorld r t
SameWorld-trans r s t f g = record {
  exit_rounds = g.exit_rounds ∙ f.exit_rounds;
  sends = g.sends ∙ f.sends;
  unlinks = g.unlinks ∙ f.unlinks;
}

module _ (size : ℕ) {h : Heap Node} {qs ms : List CString} where
  -- One call.
  sync_call-Live :
      {id : ℕ} {calls : List Call} (c : Call) (arg : Arg) {out : Arg} {before after : Disk}
      (s : Program Running)
      → Live size h qs ms id (c ∷ calls) s.library
      → Serves size h c arg out before after
      → id < minus_one
      → Returns
          (λ given t.
            (given ≡ some out)
            × Live size h qs ms (id + 1) calls t.library
            × SameWorld s.library t.library
            × (t.printed ≡ s.printed))
          (sync_call (library size) arg s)
  unfolding sync_call
  sync_call-Live c arg s live serves few =
      Returns.chain
        (library-Returns s
          (sync-Live size s.library c arg Main.priority (omega arith) live serves few))
        λ result t (u, same, (zero_code, right, next, world)).
          returns (right, rw same next, rw same world, rw same refl)

  -- The loop over the files.
  call_all-Live :
      (id : ℕ) (calls : List Call) (args outs : List Arg) (before after : Disk)
      (s : Program Running)
      → AllServed size h calls args outs before after
      → Live size h qs ms id calls s.library
      → id + length args ≤ minus_one
      → Returns
          (λ keys t.
            (keys ≡ some [])
            × Live size h qs ms (id + length args) [] t.library
            × SameWorld s.library t.library
            × (t.printed ≡ s.printed))
          (call_all (library size) sync_method args s)
  unfolding call_all
  call_all-Live id [] [] [] d e s served live few =
      let none_left : id + 0 ≡ id = omega arith in
      returns
        (refl, rw none_left live, record { exit_rounds = refl; sends = refl; unlinks = refl }, refl)
  call_all-Live id [] [] (o ∷ os) d e s served live few = absurd served
  call_all-Live id [] (a ∷ args) os d e s served live few = absurd served
  call_all-Live id (c ∷ cs) [] os d e s served live few = absurd served
  call_all-Live id (c ∷ cs) (a ∷ args) [] d e s served live few = absurd served
  call_all-Live id (c ∷ cs) (a ∷ args) (o ∷ os) d e s (m, serves, rest) live few =
      Returns.chain (sync_call-Live c a s live serves (omega (arith, few)))
        λ given t (right, next, world, printed).
          Returns.weaken
            (λ keys v (no_keys, last, worlds, printed').
              let count : id + 1 + length args ≡ id + length (a ∷ args) = omega arith in
              (
                no_keys,
                rw (← count) last,
                SameWorld-trans s.library t.library v.library world worlds,
                printed' ∙ printed,
              ))
            (call_all-Live (id + 1) cs args os m e t rest next (omega (arith, few)))

  module _ (w : Main.World) where
    -- The branch for a list of files.
    pub many-Live :
        (path : CString) (ps : List CString) (calls : List Call) (outs : List Arg)
        (before after : Disk) (s : Program Running)
        → w.fopen path ≡ some (print ps [])
        → w.fseek ≡ true
        → ArePaths ps
        → AllServed size h calls (args_of w.unset ps) outs before after
        → Live size h qs ms 0 calls s.library
        → 0 < length ps
        → length ps < 2 ^ 31
        → Returns
            (λ done t.
              (done ≡ true)
              × Live size h qs ms (0 + length (args_of w.unset ps)) [] t.library
              × SameWorld s.library t.library
              × (t.printed ≡ many_sync (length ps) (elapsed w.before w.after) ∷ s.printed))
            (many (library size) w sync_method path s)
    unfolding many report_many join_all
    many-Live path ps calls outs before after s opens seeks are served live some_file few =
        rw (opens, many, seeks, read_args-print w.unset ps s are some_file few)
          (Returns.chain
            (call_all-Live 0 calls (args_of w.unset ps) outs before after s served live
              (omega (arith, few, length-args_of w.unset ps)))
            λ keys t (no_keys, last, world, printed).
              rw (no_keys, count_lines-print ps [] are tt few, printed)
                (returns (refl, last, world, refl)))

    -- The branch for one file.
    call_one-Live :
        (arg : Arg) {calls : List Call} (c : Call) {out : Arg} {before after : Disk}
        (s : Program Running)
        → Live size h qs ms 0 (c ∷ calls) s.library
        → Serves size h c arg out before after
        → Returns
            (λ given t.
              (given ≡ some out)
              × Live size h qs ms 1 calls t.library
              × SameWorld s.library t.library
              × (t.printed ≡ one_sync (elapsed w.before w.after) ∷ s.printed))
            (call_one (library size) w sync_method arg s)
    unfolding call_one
    call_one-Live arg c s live serves =
        Returns.chain (sync_call-Live c arg s live serves (omega arith))
          λ given t (right, last, world, printed).
            rw (right, printed) (returns (refl, last, world, refl))

    pub one-Live :
        (path : CString) {calls : List Call} (c : Call) {out : Arg} {before after : Disk}
        (s : Program Running)
        → Live size h qs ms 0 (c ∷ calls) s.library
        → Serves size h c (record (w.unset) { source_file_path = path }) out before after
        → Returns
            (λ done t.
              (done ≡ true)
              × Live size h qs ms 1 calls t.library
              × SameWorld s.library t.library
              × (t.printed
                  ≡ compressed_file out.compressed_file_path
                    ∷ one_sync (elapsed w.before w.after)
                    ∷ s.printed))
            (one (library size) w sync_method (some path) s)
    unfolding one
    one-Live path c s live serves =
        Returns.chain (call_one-Live (record (w.unset) { source_file_path = path }) c s live serves)
          λ given t (right, last, world, printed).
            rw (right, printed) (returns (refl, last, world, refl))
