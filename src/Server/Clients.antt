-- ===== src/Server/Clients.antt =====
-- What the heap of the server holds: a doubly linked list of the registered clients.
pub mod Append
pub mod Remove
pub mod Segments
use tinyfile.Common.{
  ℕ, zero, suc, ◌<◌, ◌≡◌, refl, ◌≢◌, Bool, true, false, ◌||◌, Option, none, some, List, [], ◌∷◌,
  ◌++◌, arith, ◌==◌, if◌then◌else◌,
}
use tinyfile.Common.Run.{ok, fault}
use tinyfile.Common.Memory.{Ptr, null, Heap, write}
use tinyfile.Server.{Client, Node, Server, load, store, update, free}

-- A node as the list has it: its address, its client, and the `tail` that was written into it.
pub record Cell : Type 0 where
  pub addr : Ptr
  pub client : Client
  pub tail : Ptr

abbrev pub holds : Ptr → List Cell → Bool
holds a [] = false
holds a (c ∷ cs) = (a == c.addr) || holds a cs

-- The first address, or `stop` where there is none; the last one, or `start`.
abbrev pub first : Ptr → List Cell → Ptr
first stop [] = stop
first stop (c ∷ cs) = c.addr

abbrev pub last : Ptr → List Cell → Ptr
last start [] = start
last start (c ∷ cs) = last c.addr cs

abbrev pub node_of : Cell → (prev next : Ptr) → Node
node_of c p q = record { client = c.client; tail = c.tail; next = q; prev = p }

-- Distinct nodes, none at the null address, each linked to the one before it (the first to `start`)
-- and the one behind it (the last to `stop`).
abbrev pub Linked : Heap Node → (start stop : Ptr) → List Cell → Type 0
Linked h start stop [] = Unit {0}
Linked h start stop (c ∷ cs) =
    (c.addr ≢ null)
    × (h c.addr ≡ some (node_of c start (first stop cs)))
    × (holds c.addr cs ≡ false)
    × Linked h c.addr stop cs

-- The first node's `tail` is the last node's address.
abbrev pub KnowsTail : List Cell → Type 0
KnowsTail [] = Unit {0}
KnowsTail (c ∷ cs) = c.tail ≡ last c.addr cs

-- `clients` heads the list, and the first node knows the last one.
pub record IsClients (s : Server) (cs : List Cell) : Type 0 where
  pub linked : Linked s.heap null null cs
  pub head : s.clients ≡ first null cs
  pub tail : KnowsTail cs

pub not_null : {p : Ptr} → p ≢ null → (p == null) ≡ false
not_null nz = ground arith

pub Linked-same :
    (h g : Heap Node) (start stop : Ptr) (cs : List Cell)
    → Linked h start stop cs
    → ((a : Ptr) → holds a cs ≡ true → g a ≡ h a)
    → Linked g start stop cs
Linked-same h g start stop [] l same = tt
Linked-same h g start stop (c ∷ cs) (nz, at, out, rest) same = (
  nz,
  ground (arith, same c.addr),
  out,
  Linked-same h g c.addr stop cs rest (λ a i. same a (ground arith)),
)

pub Linked-write :
    (h : Heap Node) (start stop : Ptr) (cs : List Cell) (p : Ptr) (n : Option Node)
    → Linked h start stop cs
    → holds p cs ≡ false
    → Linked (write h p n) start stop cs
unfolding write
Linked-write h start stop cs p n l out = Linked-same h _ start stop cs l (ground arith)

pub holds-unused :
    (h : Heap Node) (start stop a : Ptr) (cs : List Cell)
    → Linked h start stop cs
    → h a ≡ none
    → holds a cs ≡ false
holds-unused h start stop a [] l unused = refl
holds-unused h start stop a (c ∷ cs) (nz, at, out, rest) unused =
    ground (arith, holds-unused h c.addr stop a cs rest unused)

module _ (s : Server) {p : Ptr} {n : Node} (nz : p ≢ null) (at : s.heap p ≡ some n) where
  pub load-ok : load p s ≡ ok n s
  unfolding load
  load-ok = ground arith

  pub update-ok :
      (f : Node → Node) → update p f s ≡ ok tt (record s { heap = write s.heap p (some (f n)) })
  unfolding update store
  update-ok f = rw load-ok

  pub free-ok : free p s ≡ ok tt (record s { heap = write s.heap p none })
  unfolding free store
  free-ok = rw load-ok
