-- ===== src/Api.antt =====
-- src/api/api.c: the state of the client library, with what each part of it keeps.
-- The file's globals and `struct client` are one record, passed from call to call.
pub mod Entries
pub mod Requests
pub mod Session
pub mod Shm
pub mod Tests
use tinyfile.Common.{
  ℕ, ◌+◌, ◌*◌, ◌/◌, ◌%◌, ◌^◌, Bool, true, false, Option, none, some, List, ltb, if◌then◌else◌,
  get_elem?, set,
}
use tinyfile.Common.Run.{Run, ok, fault, blocked, out_of_fuel, Cmd, need, modify}
use tinyfile.Types.{Request, SharedEntry, CString, size_of_int}
use tinyfile.RequestQ.{Queue}

-- `shm_size` and `shm_max_size` are TINYFILE_SHM_SIZE and TINYFILE_SHM_MAX_SIZE.
-- `entries` is the shared memory object, which the server maps too; `mapped` is `client.shm_size`,
-- the bytes of it that the client maps at `shm_addr`. `sent` is what was handed to `mq_send` on the
-- send queue by this file's functions other than the worker, with the priorities, last first.
pub record Api : Type 0 where
  pub init : Bool
  pub shm_size : ℕ
  pub shm_max_size : ℕ
  pub shm_addr : ℕ
  pub shm_fd : ℕ
  pub mapped : ℕ
  pub shm_resize_lock : Bool
  pub entries : List SharedEntry
  pub global_request_id : ℕ
  pub requests : Queue
  pub sent : List (Request × ℕ)

-- What other threads and the server do between two steps of a call.
abbrev pub Others : Type 0
Others = Api → Api

-- A command on the request queue, as a command on the whole state.
abbrev pub put_queue : {A : Type 0} → Api → Run Queue A → Run Api A
put_queue s (ok a q) = ok a (record s { requests = q })
put_queue s fault = fault
put_queue s blocked = blocked
put_queue s out_of_fuel = out_of_fuel

abbrev pub on_queue : {A : Type 0} → Cmd Queue A → Cmd Api A
on_queue m s = put_queue s (m s.requests)

pub lock_resize : Cmd Api (Unit {0})
lock_resize s = if s.shm_resize_lock then blocked else ok tt (record s { shm_resize_lock = true })

pub unlock_resize : Cmd Api (Unit {0})
unlock_resize s = ok tt (record s { shm_resize_lock = false })

-- `tinyfile_set_shm_size`: both limits become the `int` that the size converts to.
unfoldable pub set_shm_size : ℕ → Api → Api
set_shm_size sms_size s = record s {
  shm_size = sms_size % 2 ^ 32;
  shm_max_size = sms_size % 2 ^ 32;
}

-- `sizeof(tinyfile_shared_entry_t)` depends on the platform's `pthread_mutex_t`.
module _ (sizeof_entry : ℕ) where
  -- The entry at `shm_addr + idx * sizeof(...)`: a fault past the end of the mapping or the object.
  pub entry_at : ℕ → Cmd Api SharedEntry
  entry_at idx s =
      if ltb idx (s.mapped / sizeof_entry) then need (get_elem? s.entries idx) s else fault

pub set_entry : ℕ → SharedEntry → Cmd Api (Unit {0})
set_entry idx e s = ok tt (record s { entries = set s.entries idx e })
