-- ===== src/Server/Registry/Lookup.antt =====
-- `find_client` on the list of registered clients.
use tinyfile.Common.{
  ℕ, zero, suc, ◌<◌, ◌≡◌, refl, List, [], ◌∷◌, arith, ◌==◌, if◌then◌else◌, length, Bool-cases, inl,
  inr,
}
use tinyfile.Common.Run.{ok}
use tinyfile.Common.Memory.{Ptr, null}
use tinyfile.Server.{Server, find_loop, find_client}
use tinyfile.Server.Clients.{Cell, first, Linked, IsClients, load-ok, not_null}

-- The node of the first client with the process id, or null.
abbrev pub node_with : ℕ → List Cell → Ptr
node_with pid [] = null
node_with pid (c ∷ cs) = if c.client.pid == pid then c.addr else node_with pid cs

find_loop-node_with :
    (k pid start : ℕ) (s : Server) (cs : List Cell)
    → Linked s.heap start null cs
    → length cs < k
    → find_loop k pid (first null cs) s ≡ ok (node_with pid cs) s
unfolding find_loop
find_loop-node_with zero pid start s cs l fuel = absurd (omega arith)
find_loop-node_with (suc k) pid start s [] l fuel = refl
find_loop-node_with (suc k) pid start s (c ∷ cs) (nz, at, _, rest) fuel =
    rw (not_null nz, load-ok s nz at)
      (elim (Bool-cases (c.client.pid == pid)) [
        | inl same ↦ rw same
        | inr other ↦ rw other (find_loop-node_with k pid c.addr s cs rest (omega arith))
      ])

-- `find_client` returns the node of the first client with the process id, or null if there is none, and
-- writes nothing.
pub find_client-node_with :
    (k pid : ℕ) (s : Server) (cs : List Cell)
    → IsClients s cs
    → length cs < k
    → find_client k pid s ≡ ok (node_with pid cs) s
unfolding find_client
find_client-node_with k pid s cs is fuel =
    simp (is.head, find_loop-node_with k pid null s cs is.linked fuel)
