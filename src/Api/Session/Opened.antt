-- ===== src/Api/Session/Opened.antt =====
-- src/api/api.c: what `tinyfile_init` creates.
use tinyfile.Common.{
  ℕ, zero, suc, ◌*◌, ◌/◌, ◌%◌, ◌^◌, ◌<◌, ◌≤◌, ◌≡◌, refl, true, false, some, List, [], ◌∷◌, ◌++◌,
  arith, length, take, get_elem?, ap, ◌∙◌, sym,
}
use native.Mathlib.Nat.{div-mul-le_self, mod-eq_of_lt}
use tinyfile.Common.Returns.{Returns, returns}
use tinyfile.Common.Memory.{Heap}
use tinyfile.Types.{Arg, CString, SharedEntry, RegistryEntry, client_register, size_of_int}
use tinyfile.RequestQ.{Node}
use tinyfile.RequestQ.Refine.{IsQueue}
use tinyfile.Api.Shm.{truncate}
use tinyfile.Api.Shm.Resized.{length-truncate, IsMapped}
use tinyfile.Api.Session.Names.{take-decimal}
use tinyfile.Api.Session.{
  Session, Opening, sendq_prefix, recvq_prefix, shm_prefix, decimal, create_queues, init_entries,
  same_name, create_shm, register, tinyfile_init,
}

-- The send queue and the receive queue of a client have different names.
same_name-apart : (x y : CString) → same_name (sendq_prefix ++ x) (recvq_prefix ++ y) ≡ false
unfolding same_name
same_name-apart x y = refl

-- The library is initialised: its two queues and its shared memory object are the newest ones.
pub record IsOpen (qs ms : List CString) (s : Session) : Type 0 where
  pub ready : s.api.init ≡ true
  pub queues : s.queues ≡ s.recv_q_name ∷ s.send_q_name ∷ qs
  pub apart : same_name s.send_q_name s.recv_q_name ≡ false
  pub shms : s.shms ≡ s.shm_name ∷ ms

length-init_entries :
    (unset : Arg) (es : List SharedEntry) → length (init_entries unset es) ≡ length es
unfolding init_entries
length-init_entries unset [] = refl
length-init_entries unset (e ∷ es) = ap suc (length-init_entries unset es)

init_entries-free :
    (unset : Arg) (es : List SharedEntry) (i : ℕ)
    → i < length es
    → (e : SharedEntry) × (get_elem? (init_entries unset es) i ≡ some e) × (e.used ≡ false)
unfolding init_entries
init_entries-free unset [] i lt = absurd (omega arith)
init_entries-free unset (e ∷ es) zero lt = (_, refl, refl)
init_entries-free unset (e ∷ es) (suc i) lt = init_entries-free unset es i (omega arith)

-- Every call of the system that `tinyfile_init` makes succeeds.
pub record Succeeds (w : Opening) : Type 0 where
  pub registry : ℕ
  pub send_q : ℕ
  pub recv_q : ℕ
  pub fd : ℕ
  pub addr : ℕ
  pub opens_registry : w.open_registry ≡ some registry
  pub opens_send_q : w.open_send_q ≡ some send_q
  pub opens_recv_q : w.open_recv_q ≡ some recv_q
  pub opens_shm : w.shm_open ≡ some fd
  pub maps : w.mmap ≡ some addr
  pub sends : w.send ≡ true

-- What the client of a process id tells the registry: its id, and the names of its two queues and of its
-- memory, which have the id in them.
abbrev pub registration : ℕ → RegistryEntry
registration pid = record {
  cmd = client_register;
  pid = pid;
  send_q_name = sendq_prefix ++ decimal pid;
  recv_q_name = recvq_prefix ++ decimal pid;
  shm_name = shm_prefix ++ decimal pid;
}

-- What `tinyfile_init` leaves.
pub record Opened (sizeof_entry pid : ℕ) (s : Session) (code : ℕ) (t : Session) : Type 0 where
  pub zero_code : code ≡ 0
  pub is_open : IsOpen s.queues s.shms t
  pub empty : IsQueue t.api.requests []
  pub mapping : IsMapped sizeof_entry t.api
  pub count : length t.api.entries ≡ s.api.shm_size / sizeof_entry
  pub unused :
      (i : ℕ)
      → i < length t.api.entries
      → (e : SharedEntry) × (get_elem? t.api.entries i ≡ some e) × (e.used ≡ false)
  pub registered : t.registry ≡ t.entry ∷ s.registry
  pub asks : t.entry ≡ registration pid
  pub send_q_name : t.send_q_name ≡ sendq_prefix ++ decimal pid
  pub recv_q_name : t.recv_q_name ≡ recvq_prefix ++ decimal pid
  pub shm_name : t.shm_name ≡ shm_prefix ++ decimal pid

module _ (sizeof_entry : ℕ) (w : Opening) (heap : Heap Node) (s : Session) where
  -- The number of entries that `create_shm` makes.
  abbrev num : ℕ
  num = size_of_int s.api.shm_size / sizeof_entry

  num-eq : s.api.shm_size < 2 ^ 31 → num ≡ s.api.shm_size / sizeof_entry
  num-eq small =
      let size : size_of_int s.api.shm_size ≡ s.api.shm_size = ground (arith, small) in rw size

  num-le : s.api.shm_size < 2 ^ 31 → num * sizeof_entry ≤ s.api.shm_size
  num-le small = rw (num-eq small) (div-mul-le_self s.api.shm_size sizeof_entry)

  mapped-whole : s.api.shm_size < 2 ^ 31 → (sizeof_entry * num) % 2 ^ 64 ≡ num * sizeof_entry
  mapped-whole small =
      let le = num-le small in
      let turned : sizeof_entry * num ≡ num * sizeof_entry = grind arith in
      rw turned (mod-eq_of_lt (omega (arith, le, small)))

  made : length (init_entries w.unset (truncate num [])) ≡ num
  made = length-init_entries w.unset (truncate num []) ∙ length-truncate num []

  -- `strncpy` copies the whole of each name.
  copied :
      ◌≡◌ {A = RegistryEntry}
        (record {
          cmd = client_register;
          pid = w.pid;
          send_q_name = take 100 (sendq_prefix ++ decimal w.pid);
          recv_q_name = take 100 (recvq_prefix ++ decimal w.pid);
          shm_name = take 100 (shm_prefix ++ decimal w.pid);
        })
        (registration w.pid)
  copied =
      rw
        (
          take-decimal sendq_prefix w.pid (omega arith),
          take-decimal recvq_prefix w.pid (omega arith),
          take-decimal shm_prefix w.pid (omega arith),
        )
        refl

  -- If every call of the system succeeds, `tinyfile_init` of a library that is not initialised, with the size
  -- and the limit of its memory below 2 ^ 31, returns 0:
  -- its queues and its memory object are the newest ones, the request queue is empty, the whole object
  -- is mapped with as many entries as fit into the size that is set, none of them is in use, and the registry
  -- has been sent the client's process id and the names of these queues and of this object.
  pub tinyfile_init-Opened :
      Succeeds w
      → s.api.init ≡ false
      → s.api.shm_size < 2 ^ 31
      → s.api.shm_max_size < 2 ^ 31
      → Returns (Opened sizeof_entry w.pid s) (tinyfile_init sizeof_entry w heap s)
  unfolding tinyfile_init create_queues create_shm register
  tinyfile_init-Opened good closed small small_max =
      simp
        (
          closed, good.opens_registry, good.opens_send_q, good.opens_recv_q, good.opens_shm,
          good.maps, good.sends,
        )
        (returns (record {
          zero_code = refl;
          is_open = record {
            ready = refl;
            queues = refl;
            apart = same_name-apart (decimal w.pid) (decimal w.pid);
            shms = refl;
          };
          empty = record { chain = tt; head = refl; free_mutex = refl };
          mapping = record {
            whole = mapped-whole small ∙ ap (λ n. n * sizeof_entry) (sym made);
            small = rw (mapped-whole small) (omega (arith, num-le small, small));
            positive = small;
            positive_max = small_max;
            open_lock = refl;
          };
          count = made ∙ num-eq small;
          unused = λ i lt.
              init_entries-free w.unset (truncate num []) i
                (omega (arith, lt, length-init_entries w.unset (truncate num [])));
          registered = refl;
          asks = copied;
          send_q_name = refl;
          recv_q_name = refl;
          shm_name = refl;
        }))

  -- The request queue that it leaves: the worker may run, and the heap is the one that was there; the
  -- first request will have the number 0.
  pub record Started (t : Session) : Type 0 where
    pub runs : t.api.requests.stop_worker ≡ false
    pub heap_kept : t.api.requests.heap ≡ heap
    pub number : t.api.global_request_id ≡ 0
    pub limits : (t.api.shm_size ≡ s.api.shm_size) × (t.api.shm_max_size ≡ s.api.shm_max_size)

  pub tinyfile_init-Started :
      Succeeds w
      → s.api.init ≡ false
      → Returns (λ _ t. Started t) (tinyfile_init sizeof_entry w heap s)
  unfolding tinyfile_init create_queues create_shm register
  tinyfile_init-Started good closed =
      simp
        (
          closed, good.opens_registry, good.opens_send_q, good.opens_recv_q, good.opens_shm,
          good.maps, good.sends,
        )
        (returns (record { runs = refl; heap_kept = refl; number = refl; limits = (refl, refl) }))
