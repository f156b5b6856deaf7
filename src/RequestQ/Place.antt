-- ===== src/RequestQ/Place.antt =====
-- src/api/api.c: the walk of `request_q_enqueue` to the place of a new entry, and its insertion there.
use tinyfile.Common.{
  ℕ, zero, suc, ◌<◌, ◌≡◌, refl, ◌≢◌, inl, inr, false, some, [], ◌∷◌, arith, leb, ◌==◌, Bool-cases,
  length, ◌∙◌,
}
use tinyfile.Common.Run.{then_run}
use tinyfile.Common.Returns
use tinyfile.Common.Returns.{Returns, returns}
use tinyfile.Types.{Request}
use tinyfile.Common.Memory.{Ptr, null, write}
use tinyfile.RequestQ.{node, Queue, seek, link}
use tinyfile.RequestQ.Chain.{Cells, holds, front, Chain, SameBut, Chain-same, load-ok, set_next-ok}
use tinyfile.RequestQ.Insert.{insert, holds-insert}

-- The cells `ys` have come to stand behind the node `prev`, and nothing else has changed.
record Linked (s : Queue) (prev : Ptr × Request) (ys : Cells) (t : Queue) : Type 0 where
  chain : Chain t.heap (prev ∷ ys)
  same : SameBut (prev ∷ ys) s.heap t.heap
  queue : t.queue ≡ s.queue
  mutex : t.mutex ≡ s.mutex
  stop : t.stop_worker ≡ s.stop_worker

module _ (entry : Ptr) (r : Request) (nz : entry ≢ null) where
  behind :
      (s : Queue) {rp : Request} (p : Ptr) (xs : Cells)
      → s.heap p ≡ some (node rp (front null xs))
      → (p == entry) ≡ false
      → write s.heap entry (some (node r (front null xs))) p ≡ some (node rp (front null xs))
  unfolding write
  behind p xs atp ne = ground arith

  link-Linked :
      (s : Queue) (prev : Ptr × Request) (xs : Cells)
      → s.heap entry ≡ some (node r null)
      → Chain s.heap (prev ∷ xs)
      → holds entry (prev ∷ xs) ≡ false
      → Returns (λ _ t. Linked s prev ((entry, r) ∷ xs) t) (link entry (prev.0, front null xs) s)
  unfolding link write
  link-Linked s (p, rp) xs at (nzp, atp, outp, rest) out =
      let got : (p == null) ≡ false = ground arith in
      let moved = behind s p xs atp (ground arith) in
      rw
        (
          set_next-ok s nz at (front null xs),
          got,
          set_next-ok (record s { heap = write s.heap entry (some (node r (front null xs))) }) nzp
              moved entry,
        )
        (returns (record {
          chain = (
            nzp,
            ground arith,
            ground arith,
            (nz, ground arith, ground arith, Chain-same s.heap _ xs rest (ground arith)),
          );
          same = ground arith;
          queue = refl;
          mutex = refl;
          stop = refl;
        }))

  -- A place found further on is a place behind `prev` too.
  Linked-further :
      (s : Queue) (prev x : Ptr × Request) (xs ys : Cells) (t : Queue)
      → Chain s.heap (prev ∷ x ∷ xs)
      → ys ≡ insert (entry, r) xs
      → holds entry (prev ∷ x ∷ xs) ≡ false
      → Linked s x ys t
      → Linked s prev (x ∷ ys) t
  Linked-further s prev x xs ys t c e out l = record {
    chain = (
      c.0,
      ground (arith, l.same prev.0, holds-insert prev.0 (entry, r) xs),
      ground (arith, holds-insert prev.0 (entry, r) xs),
      l.chain,
    );
    same = λ a o. l.same a (ground arith);
    queue = l.queue;
    mutex = l.mutex;
    stop = l.stop;
  }

  seek-link :
      (k : ℕ) (s : Queue) (prev : Ptr × Request) (xs : Cells)
      → s.heap entry ≡ some (node r null)
      → Chain s.heap (prev ∷ xs)
      → holds entry (prev ∷ xs) ≡ false
      → length xs < k
      → Returns
          (λ _ t. Linked s prev (insert (entry, r) xs) t)
          (then_run (seek k r.priority prev.0 (front null xs) s) (link entry))
  unfolding seek insert
  seek-link zero s prev xs at c out fuel = absurd (omega arith)
  seek-link (suc k) s prev [] at c out fuel = link-Linked s prev [] at c out
  seek-link (suc k) s prev (x ∷ xs) at c out fuel =
      let (nz', at', out', rest) = c.3 in
      let got : (x.0 == null) ≡ false = ground arith in
      rw (got, load-ok s nz' at')
        (elim (Bool-cases (leb r.priority x.1.priority)) [
          | inl t ↦ rw t (
              Returns.weaken (λ _ t l. Linked-further s prev x xs _ t c refl out l)
                (seek-link k s x xs at c.3 (ground arith) (omega arith)))
          | inr t ↦ rw t (link-Linked s prev (x ∷ xs) at c out)
        ])

  -- The cells `xs` are queued, and nothing else has changed.
  pub record Queued (s : Queue) (xs : Cells) (t : Queue) : Type 0 where
    pub chain : Chain t.heap xs
    pub head : t.queue ≡ front null xs
    pub same : SameBut xs s.heap t.heap
    pub mutex : t.mutex ≡ s.mutex
    pub stop : t.stop_worker ≡ s.stop_worker

  link-Queued :
      (s : Queue) (xs : Cells)
      → s.heap entry ≡ some (node r null)
      → Chain s.heap xs
      → holds entry xs ≡ false
      → Returns (λ _ t. Queued s ((entry, r) ∷ xs) t) (link entry (null, front null xs) s)
  unfolding link write
  link-Queued s xs at c out = rw (set_next-ok s nz at (front null xs)) (
      returns (record {
        chain = (nz, ground arith, out, Chain-same s.heap _ xs c (ground arith));
        head = refl;
        same = ground arith;
        mutex = refl;
        stop = refl;
      }))

  pub seek-link-Queued :
      (k : ℕ) (s : Queue) (xs : Cells)
      → s.heap entry ≡ some (node r null)
      → Chain s.heap xs
      → s.queue ≡ front null xs
      → holds entry xs ≡ false
      → length xs < k
      → Returns
          (λ _ t. Queued s (insert (entry, r) xs) t)
          (then_run (seek k r.priority null (front null xs) s) (link entry))
  unfolding seek insert
  seek-link-Queued zero s xs at c head out fuel = absurd (omega arith)
  seek-link-Queued (suc k) s [] at c head out fuel = link-Queued s [] at c out
  seek-link-Queued (suc k) s (x ∷ xs) at c head out fuel =
      let got : (x.0 == null) ≡ false = ground arith in
      rw (got, load-ok s c.0 c.1)
        (elim (Bool-cases (leb r.priority x.1.priority)) [
          | inl t ↦ rw t (
              Returns.weaken
                (λ _ t l. record {
                  chain = l.chain;
                  head = l.queue ∙ head;
                  same = l.same;
                  mutex = l.mutex;
                  stop = l.stop;
                })
                (seek-link k s x xs at c out (omega arith)))
          | inr t ↦ rw t (link-Queued s (x ∷ xs) at c out)
        ])
