-- ===== src/Server/Registry/Register.antt =====
-- src/server/server.c: `register_client` against the list of the registered clients.
use tinyfile.Common.{
  ℕ, ◌<◌, ◌≡◌, refl, ◌≢◌, false, none, some, List, [], ◌∷◌, ◌++◌, arith, ◌==◌, length, sym, ◌∙◌,
}
use tinyfile.Common.Run.{ok}
use tinyfile.Common.Returns
use tinyfile.Common.Returns.{Returns, returns}
use tinyfile.Common.Memory.{Ptr, null, Heap, write, write-same, write-other}
use tinyfile.Types.{RegistryEntry}
use tinyfile.Server.{Client, Node, Server, store, update}
use tinyfile.Server.Clients.{
  Cell, holds, first, last, node_of, Linked, IsClients, Linked-write, update-ok, not_null,
  holds-unused,
}
use tinyfile.Server.Clients.Segments.{Linked-split, last-append, first-append, holds-append}
use tinyfile.Server.Clients.Append.{new_cell, appended, append_client-appended}
use tinyfile.Server.Registry.{Answers, init_worker_threads, new_client, add_client, register_client}
use tinyfile.Server.Registry.Lookup.{node_with, find_client-node_with}

-- A client that is registered already is left as it is.
pub register_client-registered :
    (w : Answers) (e : RegistryEntry) (s : Server) (cs : List Cell)
    → IsClients s cs
    → length cs < w.walk
    → node_with e.pid cs ≢ null
    → register_client w e s ≡ ok (some 0) s
unfolding register_client
register_client-registered w e s cs is fuel there =
    rw (find_client-node_with w.walk e.pid s cs is fuel, not_null there)

not_inner :
    (a : Ptr) (xs : List Cell) (x : Cell) (ys : List Cell)
    → holds a (xs ++ (x ∷ ys)) ≡ false
    → (a == x.addr) ≡ false
not_inner a xs x ys out = ground (arith, holds-append a xs (x ∷ ys))

-- A write to the client in one node.
Linked-client :
    (h : Heap Node) (start stop : Ptr) (xs : List Cell) (x : Cell) (ys : List Cell) (cl : Client)
    → Linked h start stop (xs ++ (x ∷ ys))
    → Linked
        (write h x.addr (some (node_of (record x { client = cl }) (last start xs) (first stop ys))))
        start
        stop
        (xs ++ (record x { client = cl } ∷ ys))
Linked-client h start stop [] x ys cl (nz, at, out, rest) =
    (nz, write-same h x.addr _, out, Linked-write h x.addr stop ys x.addr _ rest out)
Linked-client h start stop (c ∷ xs) x ys cl (nz, at, out, rest) =
    let x' : Cell = record x { client = cl } in
    (
      nz,
      rw (first-append stop xs (x' ∷ ys)) (
          write-other h x.addr c.addr _ (not_inner c.addr xs x ys out)
          ∙ rw (← first-append stop xs (x ∷ ys)) at),
      rw (holds-append c.addr xs (x' ∷ ys), ← holds-append c.addr xs (x ∷ ys)) out,
      Linked-client h c.addr stop xs x ys cl rest,
    )

module _ (s : Server) (p : Ptr) (old : Client) (f : Client → Client) where
  -- Initialising the client that was put at the end.
  init-appended :
      (cs : List Cell)
      → IsClients s (appended cs (new_cell p old))
      → Returns
          (λ _ t.
            IsClients t (appended cs (new_cell p (f old)))
            × (t.stop_registry ≡ s.stop_registry)
            × (t.pills ≡ s.pills))
          (update p (λ m. record m { client = f m.client }) s)
  init-appended [] is =
      let (nz, at, _, _) = is.linked in
      rw (update-ok s nz at (λ m. record m { client = f m.client })) (
        returns (
          record { linked = (nz, write-same s.heap p _, refl, tt); head = is.head; tail = refl },
          refl,
          refl,
        ))
  init-appended (c ∷ cs) is =
      let before : List Cell = record c { tail = p } ∷ cs in
      let (_, (nz, at, _, _), _) =
        Linked-split s.heap null null before (new_cell p old ∷ []) is.linked in
      rw (update-ok s nz at (λ m. record m { client = f m.client })) (
        returns (
          record {
            linked = Linked-client s.heap null null before (new_cell p old) [] (f old) is.linked;
            head = is.head;
            tail = sym (last-append c.addr cs (new_cell p (f old) ∷ []));
          },
          refl,
          refl,
        ))

add_client-appended :
    (s : Server) (cs : List Cell) (p : Ptr) (n : Node)
    → IsClients s cs
    → p ≢ null
    → s.heap p ≡ none
    → Returns
        (λ got t.
          (got ≡ some 0)
          × IsClients t (appended cs (new_cell p (init_worker_threads n.client)))
          × (t.stop_registry ≡ s.stop_registry)
          × (t.pills ≡ s.pills))
        (add_client p n s)
unfolding add_client store
add_client-appended s cs p n is nz unused =
    let out = holds-unused s.heap null null p cs is.linked unused in
    rw (not_null nz) (
      Returns.chain
        (append_client-appended (record s { heap = write s.heap p (some n) }) cs p n
          (record {
            linked = Linked-write s.heap null null cs p (some n) is.linked out;
            head = is.head;
            tail = is.tail;
          })
          nz (write-same s.heap p (some n)) out)
        λ _ t (listed, stop, pills).
          Returns.chain (init-appended t p n.client init_worker_threads cs listed)
            λ _ u (done, stop', pills'). returns (refl, done, stop' ∙ stop, pills' ∙ pills))

-- A client that is not registered, whose queues and memory open, is put at the end of the list, with
-- what the entry and the system say of it and its counters at 0; the call returns 0.
pub register_client-new :
    (w : Answers) (e : RegistryEntry) (s : Server) (cs : List Cell) (send_q recv_q size addr : ℕ)
    → IsClients s cs
    → length cs < w.walk
    → node_with e.pid cs ≡ null
    → w.send_q ≡ some send_q
    → w.recv_q ≡ some recv_q
    → w.shm ≡ some (size, addr)
    → w.fresh ≢ null
    → s.heap w.fresh ≡ none
    → Returns
        (λ got t.
          (got ≡ some 0)
          × IsClients t (
              appended cs
                (new_cell w.fresh (init_worker_threads (new_client w e send_q recv_q size addr))))
          × (t.stop_registry ≡ s.stop_registry)
          × (t.pills ≡ s.pills))
        (register_client w e s)
unfolding register_client
register_client-new w e s cs send_q recv_q size addr is fuel absent sq rq shm nz unused =
    simp (find_client-node_with w.walk e.pid s cs is fuel, absent, sq, rq, shm)
      (add_client-appended s cs w.fresh
        (record (w.unset) { client = new_client w e send_q recv_q size addr }) is nz unused)
