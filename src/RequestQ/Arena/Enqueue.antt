-- ===== src/RequestQ/Arena/Enqueue.antt =====
-- `request_q_enqueue` against the interface of the queue.
use tinyfile.Common.{
  suc, ◌≡◌, refl, false, List, [], ◌∷◌, arith, leb, ◌==◌, length, Bool-cases, inl, inr, ap, ◌∙◌,
}
use tinyfile.Common.Returns
use tinyfile.Common.Returns.{Returns, returns}
use tinyfile.Common.Memory.{Ptr}
use tinyfile.Types.{Request}
use tinyfile.RequestQ.Chain.{Cells, holds-unused}
use tinyfile.RequestQ.Insert.{insert, requests, holds-insert}
use tinyfile.RequestQ.Refine.{enqueue-insert}
use tinyfile.RequestQ.Interface.{insert_request}
use tinyfile.RequestQ.Arena.{Arena, on_requests, request_q_enqueue, Holds, put_requests-Returns}

requests-insert :
    (p : Ptr) (r : Request) (xs : Cells)
    → requests (insert (p, r) xs) ≡ insert_request r (requests xs)
unfolding insert
requests-insert p r [] = refl
requests-insert p r (x ∷ xs) = elim (Bool-cases (leb r.priority x.1.priority)) [
  | inl behind ↦ rw behind (ap (◌∷◌ x.1) (requests-insert p r xs))
  | inr before ↦ rw before
]

length-insert : (x : Ptr × Request) (xs : Cells) → length (insert x xs) ≡ suc (length xs)
unfolding insert
length-insert x [] = refl
length-insert x (y ∷ xs) = elim (Bool-cases (leb x.1.priority y.1.priority)) [
  | inl behind ↦ rw behind (ap suc (length-insert x xs))
  | inr before ↦ rw before
]

pub length-requests : (xs : Cells) → length (requests xs) ≡ length xs
length-requests [] = refl
length-requests (x ∷ xs) = ap suc (length-requests xs)

pub enqueue-Holds :
    (r : Request) (rs : List Request) (s : Arena)
    → Holds rs s
    → Returns (λ _ t. Holds (insert_request r rs) t) (request_q_enqueue r s)
unfolding request_q_enqueue on_requests
enqueue-Holds r rs s h =
    Returns.weaken
      (λ _ t (q, same, (is, others, stop)). rw same (record {
        cells = insert (s.next, r) h.cells;
        queued = is;
        content = requests-insert s.next r h.cells ∙ ap (insert_request r) h.content;
        count = omega (arith, h.count, length-insert (s.next, r) h.cells);
        unused = λ p le.
            let apart : (p == s.next) ≡ false = ground arith in
            let out =
              holds-unused s.requests.heap p h.cells h.queued.chain (h.unused p (omega arith)) in
            others p (rw (holds-insert p (s.next, r) h.cells, apart) out)
            ∙ h.unused p (omega arith);
        runs = stop ∙ h.runs;
      }))
      (put_requests-Returns (record s { next = suc s.next })
        (enqueue-insert s.next s.next r s.requests h.cells h.queued (omega (arith, h.count))
          (h.unused s.next (omega arith)) h.count))
