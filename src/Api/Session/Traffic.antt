-- ===== src/Api/Session/Traffic.antt =====
-- src/api/api.c: the names of the queues and of the shared memory of two clients that are initialised.
use tinyfile.Common.{ℕ, ◌≢◌, none, some, ◌++◌, get_elem?}
use tinyfile.Common.Returns
use tinyfile.Common.Returns.{Returns}
use tinyfile.Types.{CString, registry_queue}
use tinyfile.Api.Session.{Session, sendq_prefix, recvq_prefix, shm_prefix, decimal}
use tinyfile.Api.Session.Opened.{Opened}

-- By what requests, responses and arguments go.
pub data Channel : Type 0 where
  requests responses memory : Channel

-- The name that a session has for it.
abbrev pub name_of : Channel → Session → CString
name_of requests t = t.send_q_name
name_of responses t = t.recv_q_name
name_of memory t = t.shm_name

-- No name of the one session is a name of the other, nor that of the registry's queue; and the queues of
-- each have different names.
pub record Apart (t u : Session) : Type 0 where
  pub others : (i j : Channel) → name_of i t ≢ name_of j u
  pub queues : (t.send_q_name ≢ t.recv_q_name) × (u.send_q_name ≢ u.recv_q_name)
  pub registry : (i : Channel) → (name_of i t ≢ registry_queue) × (name_of i u ≢ registry_queue)

abbrev named : Channel → ℕ → CString
named requests pid = sendq_prefix ++ decimal pid
named responses pid = recvq_prefix ++ decimal pid
named memory pid = shm_prefix ++ decimal pid

-- The byte at which the names of the kinds differ.
abbrev mark : CString → ℕ
mark name = elim (get_elem? name 12) [ none ↦ 0 | some b ↦ b ]
