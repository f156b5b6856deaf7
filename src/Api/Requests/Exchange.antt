-- ===== src/Api/Requests/Exchange.antt =====
-- src/api/api.c: how a call puts a request into the shared memory and gets its answer back, as an
-- interface, and its implementation.
use tinyfile.Common.{ℕ, ◌≤◌, ◌<◌, ◌≡◌, refl, ◌⊎◌, inl, inr, Bool-cases, Option, List, arith, ltb}
use tinyfile.Common.Run.{Cmd}
use tinyfile.Common.Gives.{Gives, gives, whatever}
use tinyfile.Types.{Arg, Service, Request, EntryIdx, Priority}
use tinyfile.Api.{Api, Others}
use tinyfile.Api.Entries
use tinyfile.Api.Requests
use tinyfile.Api.Requests.{Call, next_id, priority_error}

pub record Exchange (S : Type 0) : Type 0 where
  pub find_shared_entry : Arg → Cmd S EntryIdx
  pub prepare_request : Arg → Service → Priority → Cmd S (ℕ × Request)
  pub is_request_done : EntryIdx → Cmd S (Option Arg)
  pub recv_response : EntryIdx → Cmd S (Arg × List ℕ)
  -- A request is prepared for the service and with the priority that were asked for, and for no
  -- priority over 31, on which nothing is changed.
  pub prepare_gives :
      (arg : Arg) (service : Service) (p : Priority) (s : S)
      → Gives
          (λ r t.
            ((r.0 ≡ 0) × (p ≤ 31) × (r.1.service ≡ service) × (r.1.priority ≡ p))
            ⊎ ((r.0 ≡ priority_error) × (31 < p) × (t ≡ s)))
          (prepare_request arg service p s)

-- What the preparation of a request may give.
abbrev pub Prepared : Service → Priority → Api → ℕ × Request → Api → Type 0
Prepared service p s r t =
    ((r.0 ≡ 0) × (p ≤ 31) × (r.1.service ≡ service) × (r.1.priority ≡ p))
    ⊎ ((r.0 ≡ priority_error) × (31 < p) × (t ≡ s))

module _ (sizeof_entry : ℕ) (c : Call) where
  pub prepare_request-Prepared :
      (arg : Arg) (service : Service) (p : Priority) (s : Api)
      → Gives (Prepared service p s) (Requests.prepare_request sizeof_entry c arg service p s)
  unfolding Requests.prepare_request next_id
  prepare_request-Prepared arg service p s = elim (Bool-cases (ltb 31 p)) [
    | inl over ↦ rw over (gives (inr (refl, ground (arith, over), refl)))
    | inr within ↦
        let allowed : p ≤ 31 = ground (arith, within) in
        rw within (whatever _ λ idx t. gives (inl (refl, allowed, refl, refl)))
  ]

  -- The functions of src/api/api.c, with what others do before a poll.
  abbrev pub exchange : Others → Exchange Api
  exchange others = record {
    find_shared_entry = Entries.find_shared_entry sizeof_entry c.finding;
    prepare_request = Requests.prepare_request sizeof_entry c;
    is_request_done = Entries.is_request_done sizeof_entry others;
    recv_response = Entries.recv_response sizeof_entry c.polling;
    prepare_gives = prepare_request-Prepared;
  }
