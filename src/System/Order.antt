-- ===== src/System/Order.antt =====
-- Two requests that the server's workers (src/server/server.c, `service_worker`) serve in either order.
use tinyfile.Common.{
  ap, ℕ, ◌+◌, ◌/◌, ◌%◌, ◌^◌, ◌<◌, ◌≡◌, ◌≢◌, refl, true, false, none, some, Option, [], ◌∷◌, ◌++◌,
  arith, sym, ◌∙◌, get_elem?, set, get_elem?-set_ne, set_comm, append-cancel, Bool-cases, inl, inr,
  if◌then◌else◌,
}
use tinyfile.Common.Run.{ok, then_run}
use tinyfile.Types.{Arg, CString, Request, SharedEntry, compress, minus_one}
use tinyfile.Api.Session.{same_name}
use tinyfile.Server.Compress.{World, Disk, suffix, compress_service}
use tinyfile.Server.Compress.Local.{AtMostAt, compress_service-anywhere}
use tinyfile.Server.Worker.{Work, service_worker}
use tinyfile.Server.Worker.Handle.{service_worker-done}

-- What a file holds: what was written last.
abbrev pub content : Disk → CString → Option CString
content [] path = none
content ((p, text) ∷ disk) path = if same_name p path then some text else content disk path

same_name-eq : (p q : CString) → same_name p q ≡ true → p ≡ q
unfolding same_name
same_name-eq [] [] same = refl
same_name-eq [] (b ∷ q) same = cc
same_name-eq (a ∷ p) [] same = cc
same_name-eq (a ∷ p) (b ∷ q) same =
    let heads : a ≡ b = ground (arith, same) in
    let tails : same_name p q ≡ true = ground (arith, same) in
    rw (heads, same_name-eq p q tails) refl

-- A file that is written does not touch another one.
content-other :
    (p path : CString) (n d : Disk)
    → AtMostAt p n
    → same_name p path ≡ false
    → content (n ++ d) path ≡ content d path
content-other p path n d alone other = elim alone [
  | inl nothing ↦ rw nothing refl
  | inr (text, one) ↦ rw (one, other) refl
]

-- A file that is written has the same content, and the others too.
content-same :
    (p path : CString) (n d e : Disk)
    → AtMostAt p n
    → content d path ≡ content e path
    → content (n ++ d) path ≡ content (n ++ e) path
content-same p path n d e alone same = elim alone [
  | inl nothing ↦ rw nothing same
  | inr (text, one) ↦ rw (one, same) refl
]

content_comm :
    (p q path : CString) (m n d : Disk)
    → AtMostAt p m
    → AtMostAt q n
    → p ≢ q
    → content (n ++ (m ++ d)) path ≡ content (m ++ (n ++ d)) path
content_comm p q path m n d at_p at_q apart = elim (Bool-cases (same_name p path)) [
  | inr other ↦
      content-same q path n (m ++ d) d at_q (content-other p path m d at_p other)
      ∙ sym (content-other p path m (n ++ d) at_p other)
  | inl here ↦ elim (Bool-cases (same_name q path)) [
    | inr other ↦
        content-other q path n (m ++ d) at_q other
        ∙ content-same p path m d (n ++ d) at_p (sym (content-other q path n d at_q other))
    | inl both ↦ absurd (apart (same_name-eq p path here ∙ sym (same_name-eq q path both)))
  ]
]

-- The same to the clients and to who reads the files: the flag and the counters, the entries, and what each
-- file holds.
pub record Alike (s t : Work) : Type 0 where
  pub others : t ≡ record s { disk = t.disk }
  pub files : (path : CString) → content t.disk path ≡ content s.disk path

-- What the world answers depends on the files only by what the file at `path` holds.
abbrev pub SeesOnly : CString → (Disk → World) → Type 0
SeesOnly path w = (d e : Disk) → content d path ≡ content e path → w d ≡ w e

-- A request that a worker can serve: to compress, for the entry that holds `e`, with a run of the service.
pub record CanServe (sizeof_entry : ℕ) (w : World) (req : Request) (s : Work) (e : SharedEntry)
    (out : Arg) : Type 0 where
  pub within : req.entry_idx < s.mapped / sizeof_entry
  pub there : get_elem? s.entries req.entry_idx ≡ some e
  pub proper : req.request_id ≢ minus_one
  pub asked : req.service ≡ compress
  pub code : ℕ
  pub left : Disk
  pub ran : compress_service w e.arg s.disk ≡ ok (code, out) left

module _ (size : ℕ) where
  -- What a worker makes of one request.
  abbrev step : Request → Work → SharedEntry → Arg → Disk → Work
  step req s e out n = record s {
    entries = set s.entries req.entry_idx (record e { arg = out; done = true });
    disk = n ++ s.disk;
    num_requests_started = (s.num_requests_started + 1) % 2 ^ 32;
    num_requests_completed = (s.num_requests_completed + 1) % 2 ^ 32;
  }

  -- What the other has written does not change what the world answers to a service.
  unseen :
      (w : Disk → World) (path target : CString) (n d : Disk)
      → SeesOnly path w
      → AtMostAt target n
      → target ≢ path
      → w (n ++ d) ≡ w d
  unseen w path target n d sees alone apart =
      sees (n ++ d) d (elim (Bool-cases (same_name target path)) [
        | inl same ↦ absurd (apart (same_name-eq target path same))
        | inr other ↦ content-other target path n d alone other
      ])

  -- What a worker makes of its request behind another one, whose file `n` is beside its own.
  second :
      (w : Disk → World) (req : Request) (s t : Work) (e : SharedEntry) (out : Arg) (n m : Disk)
      (target : CString)
      → t.stop_client_threads ≡ false
      → (can : CanServe size (w s.disk) req s e out) → SeesOnly e.arg.source_file_path w
      → AtMostAt target n
      → target ≢ e.arg.source_file_path
      → t.mapped ≡ s.mapped
      → t.disk ≡ n ++ s.disk
      → get_elem? t.entries req.entry_idx ≡ get_elem? s.entries req.entry_idx
      → ((f : Disk) → compress_service (w s.disk) e.arg f ≡ ok (can.code, out) (m ++ f))
      → service_worker size ((some req, w t.disk) ∷ []) t ≡ ok tt (step req t e out m)
  second w req s t e out n m target runs can sees alone apart mapped beside still anywhere =
      let world : w t.disk ≡ w s.disk = ap w beside ∙ unseen w _ target n s.disk sees alone apart in
      service_worker-done size (w t.disk) req t e can.code out (m ++ t.disk) runs
        (rw mapped can.within) (still ∙ can.there) can.proper can.asked (rw world (anywhere t.disk))

  -- Two workers of a client that is not stopped, with two requests that each could serve now (`CanServe`: to
  -- compress, numbered otherwise than a resize, with a run of the service that returns), for different
  -- entries, with different sources of which neither is
  -- the file that the other service writes, may do so in either order. What the world answers to a service
  -- may depend on the file at its source, as it is when the service runs, and on no other (`SeesOnly`). Both
  -- ways the workers return, and leave the same flag and counters, the same entries, and in each file the
  -- same content.
  pub service_worker_comm :
      (v w : Disk → World) (q r : Request) (s : Work) (d e : SharedEntry) (a b : Arg)
      → s.stop_client_threads ≡ false
      → CanServe size (v s.disk) q s d a
      → CanServe size (w s.disk) r s e b
      → q.entry_idx ≢ r.entry_idx
      → SeesOnly d.arg.source_file_path v
      → SeesOnly e.arg.source_file_path w
      → d.arg.source_file_path ≢ e.arg.source_file_path
      → d.arg.source_file_path ++ suffix ≢ e.arg.source_file_path
      → e.arg.source_file_path ++ suffix ≢ d.arg.source_file_path
      → (t : Work) × (u : Work) × (then_run
            (service_worker size ((some q, v s.disk) ∷ []) s)
            (λ _ x. service_worker size ((some r, w x.disk) ∷ []) x)
          ≡ ok tt t)
        × (then_run
              (service_worker size ((some r, w s.disk) ∷ []) s)
              (λ _ x. service_worker size ((some q, v x.disk) ∷ []) x)
            ≡ ok tt u)
        × Alike t u
  service_worker_comm v w q r s d e a b runs can_q can_r apart sees_v sees_w sources d_apart
        e_apart =
      let (m, at_q, anywhere_q) = compress_service-anywhere (v s.disk) d.arg s.disk can_q.ran in
      let (n, at_r, anywhere_r) = compress_service-anywhere (w s.disk) e.arg s.disk can_r.ran in
      let s_q = step q s d a m in
      let s_r = step r s e b n in
      let turned : r.entry_idx ≢ q.entry_idx = λ same. apart (sym same) in
      let q_first : service_worker size ((some q, v s.disk) ∷ []) s ≡ ok tt s_q =
        service_worker-done size (v s.disk) q s d can_q.code a (m ++ s.disk) runs can_q.within
          can_q.there can_q.proper can_q.asked (anywhere_q s.disk) in
      let r_first : service_worker size ((some r, w s.disk) ∷ []) s ≡ ok tt s_r =
        service_worker-done size (w s.disk) r s e can_r.code b (n ++ s.disk) runs can_r.within
          can_r.there can_r.proper can_r.asked (anywhere_r s.disk) in
      (
        step r s_q e b n,
        step q s_r d a m,
        rw q_first (
            second w r s s_q e b m n _ runs can_r sees_w at_q d_apart refl refl
              (get_elem?-set_ne s.entries q.entry_idx r.entry_idx _ apart) anywhere_r),
        rw r_first (
            second v q s s_r d a n m _ runs can_q sees_v at_r e_apart refl refl
              (get_elem?-set_ne s.entries r.entry_idx q.entry_idx _ turned) anywhere_q),
        record {
          others =
              rw
                (set_comm s.entries r.entry_idx q.entry_idx (record e { arg = b; done = true })
                  (record d { arg = a; done = true }) turned)
                refl;
          files = λ path. sym (
              content_comm (d.arg.source_file_path ++ suffix) (e.arg.source_file_path ++ suffix)
                path m n s.disk at_q at_r (λ same. sources (append-cancel _ _ suffix same)));
        },
      )
