-- ===== src/Library/Runs.antt =====
-- src/api/api.c behind its interface, while every request goes all the way: the calls of a run of a
-- program, one after the other.
use tinyfile.Common.{
  ℕ, ◌+◌, ◌/◌, ◌^◌, ◌<◌, ◌≤◌, ◌≡◌, refl, true, false, some, List, [], ◌∷◌, arith, length, ap, ◌∙◌,
  inl,
}
use native.Mathlib.Nat.{div-le_self}
use tinyfile.Common.Run.{Run}
use tinyfile.Common.Returns
use tinyfile.Common.Returns.{Returns, returns}
use tinyfile.Common.Memory.{Heap}
use tinyfile.Types.{Arg, CString, compress, minus_one, Priority}
use tinyfile.RequestQ.{Node}
use tinyfile.RequestQ.Refine.{IsQueue}
use tinyfile.Api.{Api}
use tinyfile.Api.Shm.{new_shm_size}
use tinyfile.Api.Shm.Resized.{mapped-div}
use tinyfile.Api.Requests.{Call}
use tinyfile.Api.Session.{Session, Opening, put_api}
use tinyfile.Api.Session.Opened.{
  IsOpen, Succeeds, Opened, Started, tinyfile_init-Opened, tinyfile_init-Started,
}
use tinyfile.Api.Session.Lifetime.{tinyfile_exit-Closed}
use tinyfile.Server.Compress.{Disk}
use tinyfile.System.Idle.{Idle, Serves, tinyfile_sync-Idle}
use tinyfile.Library.{Running, put_session, library, next_call, take_call}

-- The session is open beside the queues `qs` and the objects `ms`, nothing is asked of it, and the next
-- request has the number `id`; the next calls are given `calls`.
pub record Live (sizeof_entry : ℕ) (h : Heap Node) (qs ms : List CString) (id : ℕ)
    (calls : List Call) (r : Running) : Type 0 where
  pub is_open : IsOpen qs ms r.session
  pub idle : Idle sizeof_entry h r.session.api
  pub number : r.session.api.global_request_id ≡ id
  pub given : r.calls ≡ calls

-- The part of a run's state that its calls do not change.
pub record SameWorld (r t : Running) : Type 0 where
  pub exit_rounds : t.exit_rounds ≡ r.exit_rounds
  pub sends : t.sends ≡ r.sends
  pub unlinks : t.unlinks ≡ r.unlinks

-- A command on the library's state that returns, in the whole.
pub api-Returns :
    {A : Type 0} {P : A → Api → Type 0} (s : Running) {r : Run Api A}
    → Returns P r
    → Returns
        (λ a t. (u : Api) × (t ≡ record s { session = record (s.session) { api = u } }) × P a u)
        (put_session s (put_api s.session r))
api-Returns s (returns p) = returns (_, refl, p)

pub session-Returns :
    {A : Type 0} {P : A → Session → Type 0} (s : Running) {r : Run Session A}
    → Returns P r
    → Returns (λ a t. (u : Session) × (t ≡ record s { session = u }) × P a u) (put_session s r)
session-Returns s (returns p) = returns (_, refl, p)

-- A session stays open while the library's state changes.
pub IsOpen-api :
    {qs ms : List CString} (s : Session) (a : Api)
    → IsOpen qs ms s
    → a.init ≡ s.api.init
    → IsOpen qs ms (record s { api = a })
IsOpen-api s a o still = record {
  ready = still ∙ o.ready;
  queues = o.queues;
  apart = o.apart;
  shms = o.shms;
}

module _ (sizeof_entry : ℕ) {h : Heap Node} {qs ms : List CString} (r : Running) where
  -- A call of `tinyfile_sync` whose request goes all the way.
  pub sync-Live :
      {id : ℕ} {calls : List Call} (c : Call) (arg : Arg) {out : Arg} {before after : Disk}
      (p : Priority)
      → p ≤ 31
      → Live sizeof_entry h qs ms id (c ∷ calls) r
      → Serves sizeof_entry h c arg out before after
      → id < minus_one
      → Returns
          (λ (code, given) t.
            (code ≡ 0)
            × (given ≡ some out)
            × Live sizeof_entry h qs ms (id + 1) calls t
            × SameWorld r t)
          ((library sizeof_entry).tinyfile_sync arg compress p r)
  unfolding library next_call take_call
  sync-Live {id} {calls} c arg p allowed live serves few = rw live.given (
      Returns.weaken
        (λ (code, given) t (u, same, (zero_code, right, idle, number, still)).
          let next : u.global_request_id ≡ id + 1 = omega (arith, number, live.number, few) in
          rw same (
            zero_code,
            right,
            record {
              is_open = IsOpen-api r.session u live.is_open still;
              idle = idle;
              number = next;
              given = refl;
            },
            record { exit_rounds = refl; sends = refl; unlinks = refl },
          ))
        (api-Returns (record r { calls = calls })
          (tinyfile_sync-Idle c arg p allowed live.idle serves
            (λ e. omega (arith, e, live.number, few)))))

-- The end of a session that is open and whose queue is empty.
pub exit-IsOpen :
    (sizeof_entry : ℕ) {qs ms : List CString} (r : Running)
    → IsOpen qs ms r.session
    → IsQueue r.session.api.requests []
    → 0 < r.exit_rounds
    → r.sends ≡ true
    → r.unlinks ≡ true
    → Returns
        (λ code t.
          (code ≡ 0)
          × (t.session.queues ≡ qs)
          × (t.session.shms ≡ ms)
          × (t.session.api.init ≡ false)
          × (t.calls ≡ r.calls))
        ((library sizeof_entry).tinyfile_exit r)
unfolding library
exit-IsOpen sizeof_entry {qs} {ms} r is_open queue fuel sends unlinks =
    simp (sends, unlinks)
      (Returns.weaken
        (λ code t (u, same, closed).
          rw same (closed.zero_code, closed.queues, closed.shms, closed.off, refl))
        (session-Returns r
          (tinyfile_exit-Closed r.exit_rounds qs ms r.session [] is_open queue fuel)))

-- A library that was opened, with two entries at least, is one of which nothing is asked.
Opened-Idle :
    (sizeof_entry : ℕ) (w : Opening) (h : Heap Node) (s : Session) (code : ℕ) (t : Session)
    → 0 < sizeof_entry
    → 2 ≤ s.api.shm_size / sizeof_entry
    → Opened sizeof_entry w.pid s code t
    → Started sizeof_entry w h s t
    → Idle sizeof_entry h t.api
unfolding new_shm_size
Opened-Idle size w h s code t pos two o started =
    let whole : t.api.mapped / size ≡ length t.api.entries = mapped-div size pos t.api o.mapping in
    let (entry, there, unused) = o.unused 0 (omega (arith, two, o.count)) in
    record {
      free = record {
        entry = entry;
        small = omega (arith, div-le_self t.api.mapped size, o.mapping.small);
        within = omega (arith, whole, o.count, two);
        there = there;
        unused = unused;
        busy = λ j lt. absurd (omega (arith, lt));
        calm = inl (omega (arith, whole, o.count, two));
      };
      open_lock = o.mapping.open_lock;
      queue = o.empty;
      runs = started.runs;
      unused = λ p none_there. ap (λ heap. heap p) started.heap_kept ∙ none_there;
    }

-- `tinyfile_init`, if every call of the system succeeds.
pub init-Opened :
    (sizeof_entry : ℕ) (r : Running)
    → Succeeds r.opening
    → r.session.api.init ≡ false
    → r.session.api.shm_size < 2 ^ 31
    → r.session.api.shm_max_size < 2 ^ 31
    → Returns
        (λ code t.
          (u : Session) × (t ≡ record r { session = u })
          × (Opened sizeof_entry r.opening.pid r.session code u
              × Started sizeof_entry r.opening r.heap r.session u))
        ((library sizeof_entry).tinyfile_init r)
unfolding library
init-Opened size r good closed small small_max = session-Returns r (
    Returns.both (tinyfile_init-Opened size r.opening r.heap r.session good closed small small_max)
      (tinyfile_init-Started size r.opening r.heap r.session good closed))

-- `tinyfile_init`, if every call of the system succeeds and there is room for two entries.
pub init-Live :
    (sizeof_entry : ℕ) (r : Running)
    → 0 < sizeof_entry
    → 2 ≤ r.session.api.shm_size / sizeof_entry
    → Succeeds r.opening
    → r.session.api.init ≡ false
    → r.session.api.shm_size < 2 ^ 31
    → r.session.api.shm_max_size < 2 ^ 31
    → Returns
        (λ code t.
          (code ≡ 0)
          × Live sizeof_entry r.heap r.session.queues r.session.shms 0 r.calls t
          × SameWorld r t)
        ((library sizeof_entry).tinyfile_init r)
init-Live size r pos two good closed small small_max =
    Returns.weaken
      (λ code t (u, same, (opened, started)). rw same (
        opened.zero_code,
        record {
          is_open = opened.is_open;
          idle = Opened-Idle size r.opening r.heap r.session code u pos two opened started;
          number = started.number;
          given = refl;
        },
        record { exit_rounds = refl; sends = refl; unlinks = refl },
      ))
      (init-Opened size r good closed small small_max)
