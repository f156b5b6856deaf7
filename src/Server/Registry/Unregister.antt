-- ===== src/Server/Registry/Unregister.antt =====
-- src/server/server.c: `unregister_client` against the list of the registered clients.
use tinyfile.Common.{
  ℕ, suc, ◌<◌, ◌≡◌, refl, ◌≢◌, Bool, true, none, some, List, [], ◌∷◌, ◌++◌, arith, ◌==◌,
  if◌then◌else◌, length, Bool-cases, inl, inr, ◌∙◌,
}
use tinyfile.Common.Run.{ok, fault, then_run, pure, ◌>>◌}
use tinyfile.Common.Returns
use tinyfile.Common.Returns.{Returns, returns}
use tinyfile.Common.Memory.{Ptr, null, write, write-same}
use tinyfile.Server.{Server, load, free, find_loop, find_client, remove_client}
use tinyfile.Server.Clients.{Cell, node_of, IsClients, Linked-write, load-ok, free-ok, not_null}
use tinyfile.Server.Clients.Segments.{Linked-split}
use tinyfile.Server.Clients.Remove.{
  joined, here, apart_sym, holds-joined, remove_client-joined, remove_client-only,
  remove_client-first,
}
use tinyfile.Server.Registry.{Answers, Others, wait_requests, send_pill, unregister_client}
use tinyfile.Server.Registry.Lookup.{node_with, find_client-node_with}

-- A walk that starts at a freed node faults.
find_client-freed :
    (k pid : ℕ) (s : Server) (p : Ptr)
    → s.clients ≡ p
    → p ≢ null
    → s.heap p ≡ none
    → find_client (suc k) pid s ≡ fault
unfolding find_client find_loop load
find_client-freed k pid s p head nz gone = simp (head, not_null nz, gone)

-- The call finds the client in the list, no request of it is running, and others stay out.
pub record Idle (w : Answers) (pid : ℕ) (c : Cell) (s : Server) (cs : List Cell) : Type 0 where
  pub listed : IsClients s cs
  pub walk : length cs < w.walk
  pub found : node_with pid cs ≡ c.addr
  pub rest : List Others
  pub waiting : w.waiting ≡ (λ t. t) ∷ rest
  pub done : c.client.num_requests_started ≡ c.client.num_requests_completed

-- What is left to do when the node is out of the list.
finish :
    {cell_start cell_stop : Ptr} (rest : List Others) (c : Cell) (t : Server)
    → c.addr ≢ null
    → t.heap c.addr ≡ some (node_of c cell_start cell_stop)
    → c.client.num_requests_started ≡ c.client.num_requests_completed
    → then_run {B = ℕ} (wait_requests ((λ u. u) ∷ rest) c.addr t) (λ _. free c.addr >> pure 0)
      ≡ ok 0 (record t { heap = write t.heap c.addr none })
unfolding wait_requests
finish rest c t nz at done =
    let same : (c.client.num_requests_started == c.client.num_requests_completed) ≡ true =
      ground arith in
    rw (load-ok t nz at, same, free-ok t nz at)

abbrev pilled : Bool → Cell → Server → Server
pilled close c s = record s { pills = if close then c.client.send_q ∷ s.pills else s.pills }

relisted :
    (close : Bool) (c : Cell) (s : Server) (cs : List Cell)
    → IsClients s cs
    → IsClients (pilled close c s) cs
relisted close c s cs is = record { linked = is.linked; head = is.head; tail = is.tail }

-- The call up to `remove_client`, once the client is found.
module _ (w : Answers) (pid : ℕ) (close : Bool) (s : Server) (c : Cell) (cs : List Cell)
    (idle : Idle w pid c s cs) {start stop : Ptr} (nz : c.addr ≢ null)
    (at : s.heap c.addr ≡ some (node_of c start stop)) where
  pill-ok : (if close then send_pill c.addr else pure tt) s ≡ ok tt (pilled close c s)
  unfolding send_pill
  pill-ok = elim (Bool-cases close) [
    | inl asked ↦ rw (asked, load-ok s nz at)
    | inr quiet ↦ rw quiet
  ]

  unregister_client-found :
      unregister_client w pid close s
      ≡ then_run
          (remove_client c.addr (pilled close c s))
          (λ _. wait_requests ((λ u. u) ∷ idle.rest) c.addr >> (free c.addr >> pure 0))
  unfolding unregister_client
  unregister_client-found = rw (
    find_client-node_with w.walk pid s cs idle.listed idle.walk,
    idle.found,
    not_null nz,
    idle.waiting,
    pill-ok,
  )

-- `unregister_client`, of an idle client with others before it in the list, returns 0: the client is out
-- of the list, which is in order, its node is freed, and it is sent the closing message if asked for.
pub unregister_client-joined :
    (w : Answers) (pid : ℕ) (close : Bool) (s : Server) (x : Cell) (xs : List Cell) (c : Cell)
    (ys : List Cell)
    → Idle w pid c s ((x ∷ xs) ++ (c ∷ ys))
    → Returns
        (λ code t.
          (code ≡ 0)
          × IsClients t (joined x xs ys)
          × (t.heap c.addr ≡ none)
          × (t.pills ≡ (if close then c.client.send_q ∷ s.pills else s.pills)))
        (unregister_client w pid close s)
unregister_client-joined w pid close s x xs c ys idle =
    let (_, (nz, at, out, _), apart) =
      Linked-split s.heap null null (x ∷ xs) (c ∷ ys) idle.listed.linked in
    let c_out = apart_sym (x ∷ xs) (c ∷ ys) apart c.addr (here c ys) in
    rw (unregister_client-found w pid close s c _ idle nz at) (
      Returns.chain
        (remove_client-joined (pilled close c s) x xs c ys (relisted close c s _ idle.listed))
        λ _ t (is, kept, _, pills). rw (finish idle.rest c t nz (kept ∙ at) idle.done) (
          returns (
            refl,
            record {
              linked =
                  Linked-write t.heap null null (joined x xs ys) c.addr none is.linked
                    (holds-joined c.addr x xs ys c_out out);
              head = is.head;
              tail = is.tail;
            },
            write-same t.heap c.addr none,
            pills,
          )))

-- The only client leaves an empty list.
pub unregister_client-only :
    (w : Answers) (pid : ℕ) (close : Bool) (s : Server) (c : Cell)
    → Idle w pid c s (c ∷ [])
    → Returns
        (λ code t. (code ≡ 0) × IsClients t [] × (t.heap c.addr ≡ none))
        (unregister_client w pid close s)
unregister_client-only w pid close s c idle =
    let (nz, at, _, _) = idle.listed.linked in
    rw
      (
        unregister_client-found w pid close s c _ idle nz at,
        remove_client-only (pilled close c s) c (relisted close c s _ idle.listed),
        finish idle.rest c (record (pilled close c s) { clients = null }) nz at idle.done,
      )
      (returns
        (refl, record { linked = tt; head = refl; tail = tt }, write-same s.heap c.addr none))

-- The first of several clients: its node is freed, but `clients` still points at it.
pub unregister_client-first :
    (w : Answers) (pid : ℕ) (close : Bool) (s : Server) (c d : Cell) (ys : List Cell)
    → Idle w pid c s (c ∷ d ∷ ys)
    → Returns
        (λ code t. (code ≡ 0) × (t.clients ≡ c.addr) × (t.heap c.addr ≡ none))
        (unregister_client w pid close s)
unregister_client-first w pid close s c d ys idle =
    let (nz, at, _, _) = idle.listed.linked in
    rw (unregister_client-found w pid close s c _ idle nz at) (
      Returns.chain
        (remove_client-first (pilled close c s) c d ys (relisted close c s _ idle.listed))
        λ _ t (head, kept, _).
          rw (finish idle.rest c t nz (kept ∙ at) idle.done)
            (returns (refl, head, write-same t.heap c.addr none)))

-- So after the first of several clients has been unregistered, the next look for any client reads the
-- freed node.
pub unregister_client-find_client :
    (w : Answers) (pid : ℕ) (close : Bool) (s : Server) (c d : Cell) (ys : List Cell) (k other : ℕ)
    → Idle w pid c s (c ∷ d ∷ ys)
    → then_run (unregister_client w pid close s) (λ _. find_client (suc k) other) ≡ fault
unregister_client-find_client w pid close s c d ys k other idle =
    Returns.chain_eq (λ _. find_client (suc k) other) fault
      (unregister_client-first w pid close s c d ys idle)
      λ _ t (_, head, gone). find_client-freed k other t c.addr head idle.listed.linked.0 gone
