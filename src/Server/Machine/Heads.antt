-- ===== src/Server/Machine/Heads.antt =====
-- src/server/server.c: what the functions on the list do to its head, whatever the heap holds.
use tinyfile.Common.{
  ℕ, zero, suc, ◌≡◌, refl, ap, ◌⊎◌, inl, inr, Bool-cases, Option, none, some, ◌==◌, ◌&&◌,
  if◌then◌else◌, ◌∙◌,
}
use tinyfile.Common.Run.{need, pure}
use tinyfile.Common.Gives.{Gives, gives, faults, runs_out, after, weaken}
use tinyfile.Common.Memory.{Ptr, null}
use tinyfile.Server.{
  Node, Server, load, store, update, set_clients, append_client, bypass, remove_client, find_loop,
  find_client,
}

abbrev pub SameHead : {A : Type 0} → Server → A → Server → Type 0
SameHead s a t = t.clients ≡ s.clients

pub load-same : (p : Ptr) (s : Server) → Gives (λ _ t. t ≡ s) (load p s)
unfolding load
load-same p s = elim (Bool-cases (p == null)) [
  | inl null ↦ rw null faults
  | inr there ↦ rw there (needed (s.heap p) s)
]
  where
    needed : {A : Type 0} (o : Option A) (s : Server) → Gives (λ _ t. t ≡ s) (need o s)
    needed none s = faults
    needed (some a) s = gives refl

pub update-SameHead : (p : Ptr) (f : Node → Node) (s : Server) → Gives (SameHead s) (update p f s)
unfolding update store
update-SameHead p f s = after (load-same p s) λ n t e. gives (rw e)

find_loop-same : (k pid : ℕ) (p : Ptr) (s : Server) → Gives (λ _ t. t ≡ s) (find_loop k pid p s)
unfolding find_loop
find_loop-same zero pid p s = runs_out
find_loop-same (suc k) pid p s = elim (Bool-cases (p == null)) [
  | inl null ↦ rw null (gives refl)
  | inr there ↦ rw there (
      after (load-same p s) λ n t e. elim (Bool-cases (n.client.pid == pid)) [
        | inl same ↦ rw same (gives e)
        | inr other ↦ rw (other, e) (find_loop-same k pid n.next s)
      ])
]

pub find_client-same : (k pid : ℕ) (s : Server) → Gives (λ _ t. t ≡ s) (find_client k pid s)
unfolding find_client
find_client-same k pid s = find_loop-same k pid s.clients s

pub append_client-head :
    (p : Ptr) (s : Server)
    → Gives (λ _ t. (t.clients ≡ p) ⊎ (t.clients ≡ s.clients)) (append_client p s)
unfolding append_client set_clients
append_client-head p s = elim (Bool-cases (s.clients == null)) [
  | inl empty ↦ rw empty (after (update-SameHead p _ s) λ _ t e. gives (inl refl))
  | inr filled ↦ rw filled (
      after (load-same s.clients s) λ h t loaded. after (update-SameHead p _ t) λ _ u e.
        after (update-SameHead h.tail _ u) λ _ v f.
          weaken (λ _ w g. inr (g ∙ f ∙ e ∙ ap (λ x. x.clients) loaded))
            (update-SameHead s.clients _ v))
]

bypass-SameHead : (p : Ptr) (n : Node) (s : Server) → Gives (SameHead s) (bypass p n s)
unfolding bypass
bypass-SameHead p n s = after (before n.prev) λ _ t e. elim (Bool-cases (n.next == null)) [
  | inl last ↦ rw last (weaken (λ _ u f. f ∙ e) (update-SameHead t.clients _ t))
  | inr inner ↦ rw inner (weaken (λ _ u f. f ∙ e) (update-SameHead n.next _ t))
]
  where
    before :
        (q : Ptr)
        → Gives
            (SameHead s)
            ((if q == null then pure tt else update q (λ m. record m { next = n.next })) s)
    before q = elim (Bool-cases (q == null)) [
      | inl first ↦ rw first (gives refl)
      | inr behind ↦ rw behind (update-SameHead q _ s)
    ]

pub remove_client-head :
    (p : Ptr) (s : Server)
    → Gives (λ _ t. (t.clients ≡ null) ⊎ (t.clients ≡ s.clients)) (remove_client p s)
unfolding remove_client set_clients
remove_client-head p s = elim (Bool-cases (p == null)) [
  | inl nothing ↦ rw nothing (gives (inr refl))
  | inr there ↦ rw there (
      after (load-same p s) λ n t e. elim (Bool-cases ((n.prev == null) && (n.next == null))) [
        | inl only ↦ rw only (gives (inl refl))
        | inr others ↦
            rw others (weaken (λ _ u f. inr (f ∙ ap (λ x. x.clients) e)) (bypass-SameHead p n t))
      ])
]
