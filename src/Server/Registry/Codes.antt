-- ===== src/Server/Registry/Codes.antt =====
-- src/server/server.c: what `register_client` gives whenever it returns.
use tinyfile.Common.{◌≡◌, refl, ◌⊎◌, inl, inr, Bool-cases, Option-cases, none, some, ◌==◌, not}
use tinyfile.Common.Gives.{Gives, gives, faults, whatever, weaken}
use tinyfile.Common.Memory.{Ptr, null}
use tinyfile.Types.{RegistryEntry}
use tinyfile.Server.{Node, Server, append_client, update, find_client}
use tinyfile.Server.Registry.{Answers, add_client, register_client}

add_client-code :
    (p : Ptr) (n : Node) (s : Server) → Gives (λ code _. code ≡ some 0) (add_client p n s)
unfolding add_client
add_client-code p n s = elim (Bool-cases (p == null)) [
  | inl failed ↦ rw failed faults
  | inr there ↦ rw there (
      whatever _
        λ _ t. whatever (append_client p t) λ _ u. whatever (update p _ u) λ _ v. gives refl)
]

pub register_client-code :
    (w : Answers) (e : RegistryEntry) (s : Server)
    → Gives (λ code _. (code ≡ none) ⊎ (code ≡ some 0)) (register_client w e s)
unfolding register_client
register_client-code w e s = whatever (find_client w.walk e.pid s) λ found t.
    elim (Bool-cases (not (found == null))) [
      | inl known ↦ rw known (gives (inr refl))
      | inr new ↦ rw new (elim (Option-cases w.send_q) [
        | inl failed ↦ rw failed (gives (inl refl))
        | inr (send_q, sends) ↦ elim (Option-cases w.recv_q) [
          | inl failed ↦ rw (sends, failed) (gives (inl refl))
          | inr (recv_q, receives) ↦ elim (Option-cases w.shm) [
            | inl failed ↦ rw (sends, receives, failed) (gives (inl refl))
            | inr (shm, maps) ↦
                rw (sends, receives, maps)
                  (weaken (λ code u e. inr e) (add_client-code w.fresh _ t))
          ]
        ]
      ])
    ]
