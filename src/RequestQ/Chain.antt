-- ===== src/RequestQ/Chain.antt =====
-- What the heap of the request queue holds: the nodes of a list of requests, linked in order.
use tinyfile.Common.{
  ◌≡◌, refl, ◌≢◌, Bool, true, false, ◌||◌, Option, none, some, List, [], ◌∷◌, arith, ◌==◌,
}
use tinyfile.Common.Run.{ok}
use tinyfile.Types.{Request}
use tinyfile.Common.Memory.{Ptr, null, Heap, write}
use tinyfile.RequestQ.{Node, node, Queue, store, load, set_next, free}

-- The requests that are queued, each with the address of its node.
abbrev pub Cells : Type 0
Cells = List (Ptr × Request)

abbrev pub holds : Ptr → Cells → Bool
holds a [] = false
holds a ((p, _) ∷ xs) = (a == p) || holds a xs

-- The address of the first node, or where the chain ends.
abbrev pub front : Ptr → Cells → Ptr
front stop [] = stop
front stop ((p, _) ∷ xs) = p

-- Distinct nodes, none at the null address, each linked to the next and the last one to `null`.
abbrev pub Chain : Heap Node → Cells → Type 0
Chain h [] = Unit {0}
Chain h ((p, r) ∷ xs) =
    (p ≢ null) × (h p ≡ some (node r (front null xs))) × (holds p xs ≡ false) × Chain h xs

-- The heap `g` agrees with `h` but at the addresses of `xs`.
abbrev pub SameBut : Cells → Heap Node → Heap Node → Type 0
SameBut xs h g = (a : Ptr) → holds a xs ≡ false → g a ≡ h a

pub Chain-same :
    (h g : Heap Node) (xs : Cells)
    → Chain h xs
    → ((a : Ptr) → holds a xs ≡ true → g a ≡ h a)
    → Chain g xs
Chain-same h g [] c same = tt
Chain-same h g ((p, r) ∷ xs) (nz, at, out, rest) same =
    (nz, ground (arith, same p), out, Chain-same h g xs rest (λ a i. same a (ground arith)))

pub Chain-write :
    (h : Heap Node) (xs : Cells) (p : Ptr) (c : Option Node)
    → Chain h xs
    → holds p xs ≡ false
    → Chain (write h p c) xs
unfolding write
Chain-write h xs p c chain out = Chain-same h _ xs chain (ground arith)

-- An unused address is none of the chain's.
pub holds-unused :
    (h : Heap Node) (a : Ptr) (xs : Cells) → Chain h xs → h a ≡ none → holds a xs ≡ false
holds-unused h a [] c unused = refl
holds-unused h a ((p, r) ∷ xs) (nz, at, out, rest) unused =
    ground (arith, holds-unused h a xs rest unused)

module _ (s : Queue) {p : Ptr} {n : Node} (nz : p ≢ null) (at : s.heap p ≡ some n) where
  pub load-ok : load p s ≡ ok n s
  unfolding load
  load-ok = ground arith

  pub set_next-ok :
      (q : Ptr)
      → set_next p q s ≡ ok tt (record s { heap = write s.heap p (some (record n { next = q })) })
  unfolding set_next store
  set_next-ok q = rw load-ok

  pub free-ok : free p s ≡ ok tt (record s { heap = write s.heap p none })
  unfolding free store
  free-ok = rw load-ok
