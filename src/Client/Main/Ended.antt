-- ===== src/Client/Main/Ended.antt =====
-- How a run of client.c ends, once the library has started and the calls are made.
use tinyfile.Api.Requests.{Call}
use tinyfile.Common.{ℕ, ◌/◌, ◌^◌, ◌<◌, ◌≤◌, ◌≡◌, refl, true, false, List, [], ◌∙◌}
use tinyfile.Common.Returns
use tinyfile.Common.Returns.{Returns, returns}
use tinyfile.RequestQ.Refine.{IsQueue}
use tinyfile.Api.Session.Opened.{IsOpen, Succeeds}
use tinyfile.Library.{Running, library}
use tinyfile.Library.Runs.{SameWorld, exit-IsOpen}
use tinyfile.Client.{Options, Program, Message}
use tinyfile.Client.Main
use tinyfile.Client.Main.{returned_0, Status, perform, work, main}
use tinyfile.Client.Main.Whole.{library-Returns, SameWorld-trans}

-- A library that is not initialised, whose sizes are below 2 ^ 31, with room for two entries, and a world in which its calls of the
-- system succeed, at the start and at the end.
pub record CanRun (sizeof_entry : ℕ) (r : Running) : Type 0 where
  pub positive : 0 < sizeof_entry
  pub room : 2 ≤ r.session.api.shm_size / sizeof_entry
  pub small : r.session.api.shm_size < 2 ^ 31
  pub small_max : r.session.api.shm_max_size < 2 ^ 31
  pub closed : r.session.api.init ≡ false
  pub opens : Succeeds r.opening
  pub exits : 0 < r.exit_rounds
  pub sends : r.sends ≡ true
  pub unlinks : r.unlinks ≡ true

-- The program returned 0 and left nothing behind: the queues and the objects are those that were there,
-- and the library is not initialised. Of what the world gives to the calls of the library that make
-- requests, one for each, `rest` is left. It printed these messages, last first.
pub record Ended (messages : List Message) (rest : List Call) (before : Running) (status : Status)
    (after : Program Running) : Type 0 where
  pub status_0 : status ≡ returned_0
  pub queues : after.library.session.queues ≡ before.session.queues
  pub shms : after.library.session.shms ≡ before.session.shms
  pub off : after.library.session.api.init ≡ false
  pub printed : after.printed ≡ messages
  pub left : after.library.calls ≡ rest

module _ (size : ℕ) (w : Main.World) where
  -- What follows the options, if the library starts in `P` and the calls from there leave the session open
  -- and its queue empty.
  pub work-Ended :
      (o : Options) (s : Program Running) (messages : List Message) (rest : List Call)
      (P : Running → Type 0)
      → CanRun size s.library
      → Returns (λ code t. P t × SameWorld s.library t) ((library size).tinyfile_init s.library)
      → ((t : Program Running)
          → P t.library
          → t.printed ≡ s.printed
          → Returns
              (λ done u.
                (done ≡ true)
                × IsOpen s.library.session.queues s.library.session.shms u.library.session
                × IsQueue u.library.session.api.requests []
                × SameWorld t.library u.library
                × (u.printed ≡ messages)
                × (u.library.calls ≡ rest))
              (perform (library size) w o t))
      → Returns (Ended messages rest s.library) (work (library size) w o s)
  unfolding work
  work-Ended o s messages rest P can starts body =
      Returns.chain (library-Returns s starts) λ code t (v, same, (begun, world)).
        Returns.chain (body t (rw same begun) (rw same refl))
          λ done u (right, is_open, queue, world', printed, given).
            let whole = SameWorld-trans s.library t.library u.library (rw same world) world' in
            rw right (
              Returns.chain
                (library-Returns u (
                  exit-IsOpen size u.library is_open queue (rw whole.exit_rounds can.exits)
                    (whole.sends ∙ can.sends) (whole.unlinks ∙ can.unlinks)))
                λ code' x (y, same', (zero_code', queues, shms, off, kept)). returns (record {
                  status_0 = refl;
                  queues = rw same' queues;
                  shms = rw same' shms;
                  off = rw same' off;
                  printed = rw same' printed;
                  left = rw same' kept ∙ given;
                }))
