-- ===== src/Server/Registry/Exit.antt =====
-- src/server/server.c: `exit_server`, without and with registered clients.
use tinyfile.Common.{◌≡◌, refl, true, none, List, [], ◌∷◌, ◌==◌, Bool-cases, inl, inr}
use tinyfile.Common.Run.{ok, fault, ◌>>=◌}
use tinyfile.Common.Returns
use tinyfile.Common.Returns.{Returns}
use tinyfile.Common.Memory.{Ptr, null}
use tinyfile.Server.{Server, load}
use tinyfile.Server.Clients.{Cell, IsClients, load-ok, not_null}
use tinyfile.Server.Registry.{Answers, unregister_client, exit_loop, exit_server}
use tinyfile.Server.Registry.Unregister.{Idle, unregister_client-only, unregister_client-first}

pub load-freed : (s : Server) (p : Ptr) → s.heap p ≡ none → load p s ≡ fault
unfolding load
load-freed s p gone = elim (Bool-cases (p == null)) [ inl z ↦ rw z | inr nz ↦ rw (nz, gone) ]

-- However many clients there are, the first one's node is freed.
first-freed :
    (w : Answers) (s : Server) (c : Cell) (cs : List Cell)
    → Idle w c.client.pid c s (c ∷ cs)
    → Returns (λ _ t. t.heap c.addr ≡ none) (unregister_client w c.client.pid true s)
first-freed w s c [] idle =
    Returns.weaken (λ _ t r. r.2) (unregister_client-only w c.client.pid true s c idle)
first-freed w s c (d ∷ cs) idle =
    Returns.weaken (λ _ t r. r.2) (unregister_client-first w c.client.pid true s c d cs idle)

-- With a registered client, `exit_server` reads the `next` of the node that it has just freed.
pub exit_server-clients :
    (w : Answers) (rest : List Answers) (s : Server) (c : Cell) (cs : List Cell)
    → Idle w c.client.pid c s (c ∷ cs)
    → exit_server (w ∷ rest) s ≡ fault
unfolding exit_server exit_loop
exit_server-clients w rest s c cs idle =
    let (nz, at, _, _) = idle.listed.linked in
    let after_free =
      Returns.chain_eq (λ _. load c.addr >>= λ after. exit_loop rest after.next) fault
        (first-freed w s c cs idle) (λ _ t gone. rw (load-freed t c.addr gone)) in
    simp (idle.listed.head, not_null nz, load-ok s nz at) (rw after_free)

-- Without clients it tells the registry's thread to stop, and does nothing else.
pub exit_server-nil :
    (answers : List Answers) (s : Server)
    → IsClients s []
    → exit_server answers s ≡ ok tt (record s { stop_registry = true })
unfolding exit_server exit_loop
exit_server-nil [] s is = simp is.head
exit_server-nil (w ∷ rest) s is = simp is.head

-- The loop of `exit_server` without clients.
pub exit_loop-null : (answers : List Answers) (s : Server) → exit_loop answers null s ≡ ok tt s
unfolding exit_loop
exit_loop-null [] s = refl
exit_loop-null (w ∷ rest) s = refl
