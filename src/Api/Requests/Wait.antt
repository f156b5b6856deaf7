-- ===== src/Api/Requests/Wait.antt =====
-- `tinyfile_async_wait`, which is `recv_response` without its sleeps.
use tinyfile.Common.{ℕ, ◌≡◌, refl, List}
use tinyfile.Common.Run.{ok}
use tinyfile.Common.Returns.{Returns, returns}
use tinyfile.Types.{Arg}
use tinyfile.Api.{Api, Others}
use tinyfile.Api.Entries.{recv_response}
use tinyfile.Api.Requests.{tinyfile_async_wait}

pub tinyfile_async_wait-recv_response :
    (sizeof_entry idx : ℕ) (rounds : List Others) (s t : Api) (out : Arg) (slept : List ℕ)
    → recv_response sizeof_entry rounds idx s ≡ ok (out, slept) t
    → Returns (λ a u. (a ≡ out) × (u ≡ t)) (tinyfile_async_wait sizeof_entry rounds idx s)
unfolding tinyfile_async_wait
tinyfile_async_wait-recv_response size idx rounds s t out slept got = rw got (returns (refl, refl))
