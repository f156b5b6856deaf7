-- ===== src/Server/Clients/Append.antt =====
-- src/server/server.c: `append_client` against the list of the registered clients.
use tinyfile.Common.{◌≡◌, refl, ◌≢◌, false, some, List, [], ◌∷◌, ◌++◌, arith, ◌==◌, sym, ◌∙◌}
use tinyfile.Common.Run.{ok}
use tinyfile.Common.Returns.{Returns, returns}
use tinyfile.Common.Memory.{Ptr, null, Heap, write, write-same, write-other}
use tinyfile.Server.{Client, Node, Server, set_clients, append_client}
use tinyfile.Server.Clients.{
  Cell, holds, first, last, node_of, Linked, IsClients, Linked-write, load-ok, update-ok, not_null,
}
use tinyfile.Server.Clients.Segments.{
  last-append, holds-last, apart_of, Linked-last, Linked-stop, Linked-first, Linked-append,
}

abbrev pub new_cell : Ptr → Client → Cell
new_cell p c = record { addr = p; client = c; tail = p }

-- The list with a client at its end, of which the first node is told.
abbrev pub appended : List Cell → Cell → List Cell
appended [] x = x ∷ []
appended (c ∷ cs) x = record c { tail = x.addr } ∷ (cs ++ (x ∷ []))

module _ (p : Ptr) (n : Node) (nz : p ≢ null) where
  abbrev x : Cell
  x = new_cell p n.client

  append_client-nil :
      (s : Server)
      → s.heap p ≡ some n
      → IsClients s []
      → Returns
          (λ _ t. IsClients t (x ∷ []) × (t.stop_registry ≡ s.stop_registry) × (t.pills ≡ s.pills))
          (append_client p s)
  unfolding append_client set_clients
  append_client-nil s at is =
      simp (is.head, update-ok s nz at (λ m. record m { next = null; prev = null; tail = p }))
        (returns (
          record { linked = (nz, write-same s.heap p _, refl, tt); head = refl; tail = refl },
          refl,
          refl,
        ))

  module _ (s : Server) (c : Cell) (cs : List Cell) (at : s.heap p ≡ some n)
      (is : IsClients s (c ∷ cs)) (out : holds p (c ∷ cs) ≡ false) where
    -- The heap with the new node written, then with the old end linked to it.
    abbrev heap_one : Heap Node
    heap_one = write s.heap p (some (node_of x (last c.addr cs) null))

    heap_one-Linked : Linked heap_one null null (c ∷ cs)
    heap_one-Linked = Linked-write s.heap null null (c ∷ cs) p _ is.linked out

    -- `l` is the node of the old end.
    module _ (l : Node) (at_end : heap_one (last c.addr cs) ≡ some l) where
      abbrev heap_two : Heap Node
      heap_two = write heap_one (last c.addr cs) (some (record l { next = p }))

      not_end : (p == last c.addr cs) ≡ false
      not_end = apart_of p (last c.addr cs) (c ∷ cs) out (holds-last c cs)

      heap_two-Linked : Linked heap_two null null ((c ∷ cs) ++ (x ∷ []))
      heap_two-Linked =
          Linked-append heap_two null null (c ∷ cs) (x ∷ [])
            (Linked-stop heap_one null null p c cs l heap_one-Linked at_end)
            (nz, write-other heap_one _ p _ not_end ∙ write-same s.heap p _, refl, tt)
            λ a i. ground (arith, out)

      first_two : heap_two c.addr ≡ some (node_of c null (first null (cs ++ (x ∷ []))))
      first_two = heap_two-Linked.1

      abbrev heap_three : Heap Node
      heap_three =
          write heap_two c.addr
            (some (node_of (record c { tail = p }) null (first null (cs ++ (x ∷ [])))))

      append_client-ran :
          last c.addr cs ≢ null
          → append_client p s ≡ ok tt (record s { heap = heap_three; clients = c.addr })
      unfolding append_client
      append_client-ran nzl =
          let head_ok : (c.addr == null) ≡ false = not_null is.linked.0 in
          simp (
            is.head,
            head_ok,
            load-ok s is.linked.0 is.linked.1,
            is.tail,
            update-ok s nz at (λ m. record m { prev = last c.addr cs; next = null; tail = p }),
            update-ok (record s { heap = heap_one; clients = c.addr }) nzl at_end
                (λ m. record m { next = p }),
            update-ok (record s { heap = heap_two; clients = c.addr }) is.linked.0 first_two
                (λ m. record m { tail = p }),
          )

      append_client-cons :
          last c.addr cs ≢ null
          → Returns
              (λ _ t.
                IsClients t (appended (c ∷ cs) x)
                × (t.stop_registry ≡ s.stop_registry)
                × (t.pills ≡ s.pills))
              (append_client p s)
      append_client-cons nzl = rw (append_client-ran nzl) (
          returns (
            record {
              linked = Linked-first heap_two null null null p c (cs ++ (x ∷ [])) heap_two-Linked;
              head = refl;
              tail = sym (last-append c.addr cs (x ∷ []));
            },
            refl,
            refl,
          ))

-- `append_client`, given a node that the list does not hold, puts its client at the end and tells the
-- first node of the new end; it touches nothing but the heap and the head of the list.
pub append_client-appended :
    (s : Server) (cs : List Cell) (p : Ptr) (n : Node)
    → IsClients s cs
    → p ≢ null
    → s.heap p ≡ some n
    → holds p cs ≡ false
    → Returns
        (λ _ t.
          IsClients t (appended cs (new_cell p n.client))
          × (t.stop_registry ≡ s.stop_registry)
          × (t.pills ≡ s.pills))
        (append_client p s)
append_client-appended s [] p n is nz at out = append_client-nil p n nz s at is
append_client-appended s (c ∷ cs) p n is nz at out =
    let (l, at_end, nzl, _) =
      Linked-last _ null null c cs (heap_one-Linked p n nz s c cs at is out) in
    append_client-cons p n nz s c cs at is out l at_end nzl
