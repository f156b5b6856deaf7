-- ===== src/Server/Clients/Segments.antt =====
-- Parts of the doubly linked list, and what a write at one end does to them.
use tinyfile.Common.{
  ◌≡◌, refl, ◌≢◌, true, false, ◌||◌, some, List, [], ◌∷◌, ◌++◌, arith, ◌==◌, ap, sym, ◌∙◌,
}
use mathlib.Core.Option.{some-injective}
use tinyfile.Common.Memory.{Ptr, null, Heap, write, write-same, write-other}
use tinyfile.Server.{Node}
use tinyfile.Server.Clients.{Cell, holds, first, last, node_of, Linked, Linked-write}

pub holds-last : (c : Cell) (cs : List Cell) → holds (last c.addr cs) (c ∷ cs) ≡ true
holds-last c [] = ground arith
holds-last c (d ∷ cs) = ground (arith, holds-last d cs)

pub holds-append : (a : Ptr) (xs ys : List Cell) → holds a (xs ++ ys) ≡ (holds a xs || holds a ys)
holds-append a [] ys = refl
holds-append a (x ∷ xs) ys = ground (arith, holds-append a xs ys)

pub first-append :
    (stop : Ptr) (xs ys : List Cell) → first stop (xs ++ ys) ≡ first (first stop ys) xs
first-append stop [] ys = refl
first-append stop (x ∷ xs) ys = refl

-- Of two addresses one is the segment's and the other is not.
pub apart_of :
    (a b : Ptr) (xs : List Cell) → holds a xs ≡ false → holds b xs ≡ true → (a == b) ≡ false
apart_of a b xs out there = ground arith

pub last-append :
    (start : Ptr) (xs ys : List Cell) → last start (xs ++ ys) ≡ last (last start xs) ys
last-append start [] ys = refl
last-append start (x ∷ xs) ys = last-append x.addr xs ys

-- The last node of a segment.
pub Linked-last :
    (h : Heap Node) (start stop : Ptr) (c : Cell) (cs : List Cell)
    → Linked h start stop (c ∷ cs)
    → (n : Node) × (h (last c.addr cs) ≡ some n) × (last c.addr cs ≢ null) × (n.next ≡ stop)
Linked-last h start stop c [] (nz, at, _, _) = (node_of c start stop, at, nz, refl)
Linked-last h start stop c (d ∷ cs) (_, _, _, rest) = Linked-last h c.addr stop d cs rest

-- A write to the last node's `next` ends the segment elsewhere.
pub Linked-stop :
    (h : Heap Node) (start stop stop' : Ptr) (c : Cell) (cs : List Cell) (n : Node)
    → Linked h start stop (c ∷ cs)
    → h (last c.addr cs) ≡ some n
    → Linked (write h (last c.addr cs) (some (record n { next = stop' }))) start stop' (c ∷ cs)
Linked-stop h start stop stop' c [] n (nz, at, out, rest) e = (
  nz,
  write-same h c.addr _
      ∙ ap {A = Node} (λ m. some (record m { next = stop' })) (some-injective _ _ (sym e ∙ at)),
  refl,
  tt,
)
Linked-stop h start stop stop' c (d ∷ cs) n (nz, at, out, rest) e = (
  nz,
  write-other h _ c.addr _ (apart_of c.addr _ (d ∷ cs) out (holds-last d cs)) ∙ at,
  out,
  Linked-stop h c.addr stop stop' d cs n rest e,
)

-- A write to the first node's `prev` moves the start, and one to its `tail` is the cell's.
pub Linked-first :
    (h : Heap Node) (start start' stop t : Ptr) (c : Cell) (cs : List Cell)
    → Linked h start stop (c ∷ cs)
    → Linked
        (write h c.addr (some (node_of (record c { tail = t }) start' (first stop cs))))
        start'
        stop
        (record c { tail = t } ∷ cs)
Linked-first h start start' stop t c cs (nz, at, out, rest) =
    (nz, write-same h c.addr _, out, Linked-write h c.addr stop cs c.addr _ rest out)

-- Two segments that meet and share no node.
pub Linked-append :
    (h : Heap Node) (start stop : Ptr) (xs ys : List Cell)
    → Linked h start (first stop ys) xs
    → Linked h (last start xs) stop ys
    → ((a : Ptr) → holds a xs ≡ true → holds a ys ≡ false)
    → Linked h start stop (xs ++ ys)
Linked-append h start stop [] ys l m apart = m
Linked-append h start stop (x ∷ xs) ys (nz, at, out, rest) m apart = (
  nz,
  rw (first-append stop xs ys) at,
  ground (arith, holds-append x.addr xs ys, apart x.addr),
  Linked-append h x.addr stop xs ys rest m (λ a i. apart a (ground arith)),
)

pub Linked-split :
    (h : Heap Node) (start stop : Ptr) (xs ys : List Cell)
    → Linked h start stop (xs ++ ys)
    → Linked h start (first stop ys) xs
      × Linked h (last start xs) stop ys
      × ((a : Ptr) → holds a xs ≡ true → holds a ys ≡ false)
Linked-split h start stop [] ys l = (tt, l, λ a i. cc)
Linked-split h start stop (x ∷ xs) ys (nz, at, out, rest) =
    let (l, m, apart) = Linked-split h x.addr stop xs ys rest in
    (
      (nz, rw (← first-append stop xs ys) at, ground (arith, holds-append x.addr xs ys), l),
      m,
      λ a i. ground (arith, apart a, holds-append x.addr xs ys),
    )
