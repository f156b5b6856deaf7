-- ===== src/Library/Calls.antt =====
-- src/api/api.c against the interface: its calls, in a run of the library.
use tinyfile.Common.{ℕ, refl}
use tinyfile.Common.Run.{Run}
use tinyfile.Common.Gives.{Gives, gives, faults, blocks, runs_out, whatever}
use tinyfile.Api.{Api}
use tinyfile.Api.Requests.Codes.{tinyfile_sync-Gives, tinyfile_async-Gives}
use tinyfile.Api.Session.{put_api}
use tinyfile.Library.{IsLibrary, Running, put_session, next_call, next_wait, library}

-- What a command on the library's state gives, the whole gives.
put-Gives :
    {A : Type 0} {P : A → Type 0} {r : Run Api A} (s : Running)
    → Gives (λ a t. P a) r
    → Gives (λ a t. P a) (put_session s (put_api s.session r))
put-Gives s (gives p) = gives p
put-Gives s faults = faults
put-Gives s blocks = blocks
put-Gives s runs_out = runs_out

-- src/api/api.c keeps what a program relies on: at a priority up to 31, `tinyfile_sync` and
-- `tinyfile_async`, when they return, return 0 with an argument or an index, and
-- `tinyfile_async_wait`, when it returns, returns 0.
pub library-IsLibrary : (sizeof_entry : ℕ) → IsLibrary (library sizeof_entry)
unfolding library
library-IsLibrary size = record {
  sync_gives = λ arg service p s allowed.
      whatever (next_call s)
        λ c t. put-Gives t (tinyfile_sync-Gives size c arg service p allowed t.session.api);
  async_gives = λ arg service p s allowed.
      whatever (next_call s)
        λ c t. put-Gives t (tinyfile_async-Gives size c arg service p allowed t.session.api);
  wait_gives = λ idx s. whatever (next_wait s) λ rounds t. whatever _ λ out u. gives (out, refl);
}
