-- ===== src/Client/Main/Submitted.antt =====
-- The loops of client.c with ASYNC, over src/api/api.c: the calls that submit the files, and the threads
-- that wait for them.
use tinyfile.Common.{
  ℕ, zero, suc, ◌+◌, ◌/◌, ◌<◌, ◌≤◌, ◌≡◌, refl, some, List, [], ◌∷◌, ◌++◌, map, arith, length, ◌∙◌,
  ap, get_elem?, append_assoc, append-nil,
}
use tinyfile.Common.Returns
use tinyfile.Common.Returns.{Returns, returns}
use tinyfile.Common.Memory.{Heap}
use tinyfile.Types.{Arg, CString, minus_one}
use tinyfile.RequestQ.{Node}
use tinyfile.RequestQ.Chain.{Cells}
use tinyfile.RequestQ.Insert.{requests}
use tinyfile.Server.Worker.Batch.{Batch, TakenFrom}
use tinyfile.Api.{Others}
use tinyfile.Api.Requests.{Call}
use tinyfile.System.Backlog.{Asked, Added, request}
use tinyfile.Library.{Running, library}
use tinyfile.Library.Runs.{SameWorld}
use tinyfile.Library.Backlog.{Pending, Answered, async-Pending, wait-next}
use tinyfile.Client.{async_method, Program}
use tinyfile.Client.Main.{submit, call_all, async_join, join_all}
use tinyfile.Client.Main.Whole.{library-Returns, SameWorld-trans}

-- The requests of the calls, for the entries from `k` on.
abbrev pub cells_from : (k : ℕ) → List Call → Cells
cells_from k [] = []
cells_from k (c ∷ cs) = (c.fresh, request c k) ∷ cells_from (suc k) cs

-- The calls for the arguments get what they need, when the queue has the cells `xs` before.
abbrev pub AllAsked : Heap Node → (k : ℕ) → (xs : Cells) → List Call → List Arg → Type 0
AllAsked h k xs [] [] = Unit {0}
AllAsked h k xs (c ∷ cs) (a ∷ args) =
    Asked h k xs c × AllAsked h (suc k) (xs ++ ((c.fresh, request c k) ∷ [])) cs args
AllAsked h k xs [] (a ∷ args) = ⊥
AllAsked h k xs (c ∷ cs) [] = ⊥

abbrev pub up_from : (k n : ℕ) → List ℕ
up_from k zero = []
up_from k (suc n) = k ∷ up_from (suc k) n

-- What the calls leave, from the entry `k` on.
pub record Submitted (k : ℕ) (args : List Arg) (s t : Program Running) : Type 0 where
  pub waiting : TakenFrom t.library.session.api.entries k args
  pub lower :
      (j : ℕ)
      → j < k
      → get_elem? t.library.session.api.entries j ≡ get_elem? s.library.session.api.entries j
  pub mapped : t.library.session.api.mapped ≡ s.library.session.api.mapped
  pub world : SameWorld s.library t.library
  pub printed : t.printed ≡ s.printed

-- The requests are as many as the arguments, and go to entries that stand side by side.
pub cells_from-Batch :
    (h : Heap Node) (k : ℕ) (xs : Cells) (calls : List Call) (args : List Arg)
    → AllAsked h k xs calls args
    → k + length args ≤ minus_one
    → (length (requests (cells_from k calls)) ≡ length args)
      × (length (cells_from k calls) ≡ length args)
      × Batch k (requests (cells_from k calls))
cells_from-Batch h k xs [] [] asked few = (refl, refl, tt)
cells_from-Batch h k xs [] (a ∷ args) asked few = absurd asked
cells_from-Batch h k xs (c ∷ cs) [] asked few = absurd asked
cells_from-Batch h k xs (c ∷ cs) (a ∷ args) (now, rest) few =
    let (same, same', batch) = cells_from-Batch h (suc k) _ cs args rest (omega (arith, few)) in
    (ap suc same, ap suc same', (refl, refl, (λ e. omega (arith, e, few)), batch))

module _ (size : ℕ) {h : Heap Node} {qs ms : List CString} where
  submit-Pending :
      {k : ℕ} {xs : Cells} {calls : List Call} {waits : List (List Others)} (c : Call) (arg : Arg)
      (s : Program Running)
      → Pending size h qs ms k xs (c ∷ calls) waits s.library
      → Asked h k xs c
      → k < s.library.session.api.mapped / size / 2
      → k < minus_one
      → Returns
          (λ key t.
            (key ≡ some k)
            × Pending size h qs ms
                (suc k)
                (xs ++ ((c.fresh, request c k) ∷ []))
                calls
                waits
                t.library
            × Added k arg s.library.session.api t.library.session.api
            × SameWorld s.library t.library
            × (t.printed ≡ s.printed))
          (submit (library size) arg s)
  unfolding submit
  submit-Pending c arg s pending asked room few =
      Returns.chain (library-Returns s (async-Pending size s.library c arg pending asked room few))
        λ result t (u, same, (right, next, added, world)).
          returns (right, rw same next, rw same added, rw same world, rw same refl)

  -- The loop over the files gives the keys in order.
  pub call_all-Pending :
      {waits : List (List Others)} (k : ℕ) (xs : Cells) (calls : List Call) (args : List Arg)
      (s : Program Running)
      → AllAsked h k xs calls args
      → Pending size h qs ms k xs calls waits s.library
      → k + length args ≤ s.library.session.api.mapped / size / 2
      → k + length args ≤ minus_one
      → Returns
          (λ keys t.
            (keys ≡ some (up_from k (length args)))
            × Pending size h qs ms (k + length args) (xs ++ cells_from k calls) [] waits t.library
            × Submitted k args s t)
          (call_all (library size) async_method args s)
  unfolding call_all
  call_all-Pending k xs [] [] s asked pending room few =
      let none_left : k + 0 ≡ k = omega arith in
      returns (
        refl,
        rw (none_left, append-nil) pending,
        record {
          waiting = tt;
          lower = λ j lt. refl;
          mapped = refl;
          world = record { exit_rounds = refl; sends = refl; unlinks = refl };
          printed = refl;
        },
      )
  call_all-Pending k xs [] (a ∷ args) s asked pending room few = absurd asked
  call_all-Pending k xs (c ∷ cs) [] s asked pending room few = absurd asked
  call_all-Pending k xs (c ∷ cs) (a ∷ args) s (now, rest) pending room few =
      Returns.chain (submit-Pending c a s pending now (omega (arith, room)) (omega (arith, few)))
        λ key t (right, next, added, world, printed). rw right (
          Returns.chain
            (call_all-Pending (suc k) (xs ++ ((c.fresh, request c k) ∷ [])) cs args t rest next
              (rw added.mapped (omega (arith, room))) (omega (arith, few)))
            λ keys u (rights, last, left).
              let count : suc k + length args ≡ k + length (a ∷ args) = omega arith in
              let joined : (xs ++ ((c.fresh, request c k) ∷ [])) ++ cells_from (suc k) cs
                  ≡ xs ++ cells_from k (c ∷ cs) =
                append_assoc xs ((c.fresh, request c k) ∷ []) (cells_from (suc k) cs) in
              rw rights (
                returns (
                  refl,
                  rw (← count, ← joined) last,
                  record {
                    waiting = (left.lower k (omega arith) ∙ added.entry, left.waiting);
                    lower = λ j lt. left.lower j (omega (arith, lt)) ∙ added.lower j lt;
                    mapped = left.mapped ∙ added.mapped;
                    world = SameWorld-trans s.library t.library u.library world left.world;
                    printed = left.printed ∙ printed;
                  },
                )))

module _ (size : ℕ) where
  -- The thread of one key.
  pub async_join-Returns :
      (i : ℕ) {o : Arg} (Q : Running → Type 0) (s : Program Running)
      → Returns
          (λ (code, out) t. (out ≡ o) × Q t × SameWorld s.library t)
          ((library size).tinyfile_async_wait i s.library)
      → Returns
          (λ out t.
            (out ≡ o) × Q t.library × SameWorld s.library t.library × (t.printed ≡ s.printed))
          (async_join (library size) i s)
  unfolding async_join
  async_join-Returns i Q s waits =
      Returns.chain (library-Returns s waits) λ result t (u, same, (right, next, world)).
        returns (right, rw same next, rw same world, rw same refl)

  -- The threads, one after the other.
  pub join_all-Answered :
      {qs ms : List CString} (i : ℕ) (outs : List Arg) (rests : List (List Others))
      (s : Program Running)
      → Answered size qs ms i outs (map (λ rest. (λ u. u) ∷ rest) rests) s.library
      → length rests ≡ length outs
      → Returns
          (λ _ t.
            Answered size qs ms (i + length outs) [] [] t.library
            × SameWorld s.library t.library
            × (t.printed ≡ s.printed))
          (join_all (library size) (up_from i (length outs)) s)
  unfolding join_all
  join_all-Answered {qs} {ms} i [] [] s there same =
      let none_left : i + 0 ≡ i = omega arith in
      returns
        (rw none_left there, record { exit_rounds = refl; sends = refl; unlinks = refl }, refl)
  join_all-Answered {qs} {ms} i [] (r ∷ rests) s there same = absurd (omega arith)
  join_all-Answered {qs} {ms} i (o ∷ outs) [] s there same = absurd (omega arith)
  join_all-Answered {qs} {ms} i (o ∷ outs) (r ∷ rests) s there same =
      Returns.chain
        (async_join-Returns i
          (Answered size qs ms (suc i) outs (map (λ rest. (λ u. u) ∷ rest) rests)) s
          (wait-next size s.library r there))
        λ out t (right, next, world, printed).
          Returns.weaken
            (λ _ u (last, worlds, printed').
              let count : suc i + length outs ≡ i + length (o ∷ outs) = omega arith in
              (
                rw (← count) last,
                SameWorld-trans s.library t.library u.library world worlds,
                printed' ∙ printed,
              ))
            (join_all-Answered (suc i) outs rests t next (omega (arith, same)))
