-- ===== src/Server/Clients/Remove.antt =====
-- src/server/server.c: `remove_client`, of an inner node, of the last, of the only one and of the first.
use tinyfile.Common.{
  ◌≡◌, refl, true, false, some, List, [], ◌∷◌, ◌++◌, arith, sym, ◌∙◌, Bool-cases, inl, inr,
}
use tinyfile.Common.Run.{ok}
use tinyfile.Common.Returns.{Returns, returns}
use tinyfile.Common.Memory.{Ptr, null, write, write-other}
use tinyfile.Server.{Server, set_clients, bypass, remove_client}
use tinyfile.Server.Clients.{
  Cell, holds, last, Linked, IsClients, Linked-write, load-ok, update-ok, not_null,
}
use tinyfile.Server.Clients.Segments.{
  last-append, holds-last, apart_of, Linked-last, Linked-stop, Linked-first, Linked-append,
  Linked-split, holds-append,
}

-- If a segment shares no node with another, the other shares none with it.
pub apart_sym :
    (xs ys : List Cell)
    → ((a : Ptr) → holds a xs ≡ true → holds a ys ≡ false)
    → (b : Ptr) → holds b ys ≡ true
    → holds b xs ≡ false
apart_sym xs ys apart b there = elim (Bool-cases (holds b xs)) [
  | inl both ↦ absurd (clash (sym there ∙ apart b both))
  | inr out ↦ out
]
  where
    clash : ¬ (true ≡ false)
    clash e = cc

pub here : (c : Cell) (cs : List Cell) → holds c.addr (c ∷ cs) ≡ true
here c cs = ground arith

further : (a : Ptr) (c : Cell) (cs : List Cell) → holds a cs ≡ true → holds a (c ∷ cs) ≡ true
further a c cs e = ground arith

holds-tail : (a : Ptr) (c : Cell) (cs : List Cell) → holds a (c ∷ cs) ≡ false → holds a cs ≡ false
holds-tail a c cs e = ground arith

-- The list without the node that stood behind `x ∷ xs` and before `ys`.
abbrev pub joined : Cell → List Cell → List Cell → List Cell
joined x xs [] = record x { tail = last x.addr xs } ∷ xs
joined x xs (d ∷ ys) = x ∷ (xs ++ (d ∷ ys))

pub holds-joined :
    (a : Ptr) (x : Cell) (xs ys : List Cell)
    → holds a (x ∷ xs) ≡ false
    → holds a ys ≡ false
    → holds a (joined x xs ys) ≡ false
holds-joined a x xs [] out e = out
holds-joined a x xs (d ∷ ys) out e = rw (holds-append a (x ∷ xs) (d ∷ ys), out) e

module _ (s : Server) (x : Cell) (xs : List Cell) (c : Cell) where
  -- The node before `c`.
  abbrev l : Ptr
  l = last x.addr xs

  remove_client-last :
      IsClients s ((x ∷ xs) ++ (c ∷ []))
      → Returns
          (λ _ t.
            IsClients t (joined x xs [])
            × (t.heap c.addr ≡ s.heap c.addr)
            × (t.stop_registry ≡ s.stop_registry)
            × (t.pills ≡ s.pills))
          (remove_client c.addr s)
  unfolding remove_client bypass
  remove_client-last is =
      let (front, (nz, at, _, _), apart) =
        Linked-split s.heap null null (x ∷ xs) (c ∷ []) is.linked in
      let (n, at_l, nzl, _) = Linked-last s.heap null c.addr x xs front in
      let c_out = apart_sym (x ∷ xs) (c ∷ []) apart c.addr (here c []) in
      let stopped = Linked-stop s.heap null c.addr null x xs n front at_l in
      simp
        (
          not_null nz,
          load-ok s nz at,
          not_null nzl,
          update-ok s nzl at_l (λ m. record m { next = null }),
          is.head,
          update-ok
              (record s {
                heap = write s.heap (last x.addr xs) (some (record n { next = null }));
                clients = x.addr;
              })
              stopped.0 stopped.1 (λ m. record m { tail = last x.addr xs }),
        )
        (returns (
          record {
            linked = Linked-first _ null null null (last x.addr xs) x xs stopped;
            head = refl;
            tail = refl;
          },
          write-other _ x.addr c.addr _ (apart_of c.addr x.addr (x ∷ xs) c_out (here x xs))
              ∙ write-other s.heap (last x.addr xs) c.addr _
                  (apart_of c.addr (last x.addr xs) (x ∷ xs) c_out (holds-last x xs)),
          refl,
          refl,
        ))

  remove_client-inner :
      (d : Cell) (ys : List Cell)
      → IsClients s ((x ∷ xs) ++ (c ∷ d ∷ ys))
      → Returns
          (λ _ t.
            IsClients t (joined x xs (d ∷ ys))
            × (t.heap c.addr ≡ s.heap c.addr)
            × (t.stop_registry ≡ s.stop_registry)
            × (t.pills ≡ s.pills))
          (remove_client c.addr s)
  unfolding remove_client bypass
  remove_client-inner d ys is =
      let (front, (nz, at, out, (nzd, atd, outd, rest)), apart) =
        Linked-split s.heap null null (x ∷ xs) (c ∷ d ∷ ys) is.linked in
      let (n, at_l, nzl, _) = Linked-last s.heap null c.addr x xs front in
      let c_out = apart_sym (x ∷ xs) (c ∷ d ∷ ys) apart c.addr (here c (d ∷ ys)) in
      let d_out =
        apart_sym (x ∷ xs) (c ∷ d ∷ ys) apart d.addr (further d.addr c (d ∷ ys) (here d ys)) in
      let stopped = Linked-stop s.heap null c.addr d.addr x xs n front at_l in
      let heap' = write s.heap (last x.addr xs) (some (record n { next = d.addr })) in
      let back : Linked heap' c.addr null (d ∷ ys) =
        Linked-write s.heap c.addr null (d ∷ ys) (last x.addr xs) _ (nzd, atd, outd, rest)
          (holds-tail _ c (d ∷ ys) (apart _ (holds-last x xs))) in
      simp
        (
          not_null nz,
          load-ok s nz at,
          not_null nzl,
          not_null nzd,
          update-ok s nzl at_l (λ m. record m { next = d.addr }),
          update-ok (record s { heap = heap' }) nzd back.1
              (λ m. record m { prev = last x.addr xs }),
        )
        (returns (
          record {
            linked =
                Linked-append _ null null (x ∷ xs) (d ∷ ys)
                  (Linked-write heap' null d.addr (x ∷ xs) d.addr _ stopped d_out)
                  (Linked-first heap' c.addr (last x.addr xs) null d.tail d ys back)
                  λ a i. holds-tail a c (d ∷ ys) (apart a i);
            head = is.head;
            tail =
                is.tail ∙ last-append x.addr xs (c ∷ d ∷ ys) ∙ sym (last-append x.addr xs (d ∷ ys));
          },
          write-other heap' d.addr c.addr _ (apart_of c.addr d.addr (d ∷ ys) out (here d ys))
              ∙ write-other s.heap (last x.addr xs) c.addr _
                  (apart_of c.addr (last x.addr xs) (x ∷ xs) c_out (holds-last x xs)),
          refl,
          refl,
        ))

-- `remove_client` takes a node with others before it out of the list: the list that is left is in
-- order, knows its end, and the node itself is not written.
pub remove_client-joined :
    (s : Server) (x : Cell) (xs : List Cell) (c : Cell) (ys : List Cell)
    → IsClients s ((x ∷ xs) ++ (c ∷ ys))
    → Returns
        (λ _ t.
          IsClients t (joined x xs ys)
          × (t.heap c.addr ≡ s.heap c.addr)
          × (t.stop_registry ≡ s.stop_registry)
          × (t.pills ≡ s.pills))
        (remove_client c.addr s)
remove_client-joined s x xs c [] is = remove_client-last s x xs c is
remove_client-joined s x xs c (d ∷ ys) is = remove_client-inner s x xs c d ys is

-- The only client: the list is empty, and no node is written.
pub remove_client-only :
    (s : Server) (c : Cell)
    → IsClients s (c ∷ [])
    → remove_client c.addr s ≡ ok tt (record s { clients = null })
unfolding remove_client set_clients
remove_client-only s c is = rw (not_null is.linked.0, load-ok s is.linked.0 is.linked.1)

-- The first of several clients: `clients` goes on pointing at the node that was removed.
pub remove_client-first :
    (s : Server) (c d : Cell) (ys : List Cell)
    → IsClients s (c ∷ d ∷ ys)
    → Returns
        (λ _ t. (t.clients ≡ c.addr) × (t.heap c.addr ≡ s.heap c.addr) × (t.pills ≡ s.pills))
        (remove_client c.addr s)
unfolding remove_client bypass
remove_client-first s c d ys is =
    let (nz, at, out, (nzd, atd, _, _)) = is.linked in
    simp
      (
        not_null nz,
        load-ok s nz at,
        not_null nzd,
        update-ok s nzd atd (λ m. record m { prev = null }),
      )
      (returns (
        is.head,
        write-other s.heap d.addr c.addr _ (apart_of c.addr d.addr (d ∷ ys) out (here d ys)),
        refl,
      ))
