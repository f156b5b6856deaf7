-- ===== src/System.antt =====
-- Client (src/api/api.c) and server (src/server/server.c) together, over the shared memory of one client.
pub mod Backlog
pub mod Idle
pub mod Order
pub mod Resize
pub mod Sync
pub mod Transport
pub mod Unanswered
mod Tests
use tinyfile.Common.{ℕ, Bool, Option, some, List}
use tinyfile.Common.Run.{Run, ok, fault, blocked, out_of_fuel}
use tinyfile.Types.{Request, Arg, SharedEntry}
use tinyfile.Server.Compress.{World, Disk}
use tinyfile.Server.Worker.{Work, handle_request, resize_shm}
use tinyfile.Api.{Api}
use tinyfile.Api.Shm.{new_shm_size}

-- The server's view of the memory that a client shares with it.
abbrev pub view : Api → Disk → Work
view s disk = record {
  mapped = s.mapped;
  entries = s.entries;
  disk = disk;
  stop_client_threads = Bool.false;
  num_requests_started = 0;
  num_requests_completed = 0;
  resizes = 0;
}

-- What the client sees of a run of the server: the entries that it leaves.
abbrev pub back : {A : Type 0} → Api → Run Work A → Api
back s (ok a t) = record s { entries = t.entries }
back s fault = s
back s blocked = s
back s out_of_fuel = s

-- The entries that a run of the server leaves.
abbrev pub entries_of : {A : Type 0} → List SharedEntry → Run Work A → List SharedEntry
entries_of es (ok a t) = t.entries
entries_of es fault = es
entries_of es blocked = es
entries_of es out_of_fuel = es

-- A worker of the server handles the request, while the client does not look.
unfoldable pub served : ℕ → World → Disk → Request → Api → Api
served sizeof_entry w disk req s = back s (handle_request sizeof_entry w req (view s disk))

-- The server's half of a resize, as the client sees it: what it makes of the entries `es` of the
-- larger object.
unfoldable pub resized : ℕ → Arg → Disk → Api → List SharedEntry → List SharedEntry
resized sizeof_entry unset disk s es = entries_of es (
    resize_shm sizeof_entry (some (new_shm_size sizeof_entry s)) unset
      (record (view s disk) { entries = es }))
