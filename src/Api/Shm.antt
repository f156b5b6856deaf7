-- ===== src/Api/Shm.antt =====
-- src/api/api.c: `create_shm`'s layout and `resize_shm`.
pub mod Resized
use tinyfile.Common.{
  ℕ, zero, suc, ◌+◌, ◌*◌, ◌/◌, ◌%◌, ◌^◌, Bool, true, false, Option, none, some, List, [], ◌∷◌, ltb,
  ◌==◌, if◌then◌else◌, replicate,
}
use tinyfile.Common.Run.{ok, Cmd, pure, ◌>>=◌, ◌>>◌, gets, modify}
use tinyfile.Types.{Request, Arg, SharedEntry, minus_one, size_of_int}
use tinyfile.RequestQ.{Queue}
use tinyfile.Api.{Api, lock_resize, unlock_resize}

-- An entry of zero bytes, which is what `ftruncate` adds.
abbrev pub zero_entry : SharedEntry
zero_entry = record {
  used = false;
  done = false;
  arg = record { source_file_path = []; compressed_file_path = [] };
}

-- `ftruncate`, in entries.
pub truncate : ℕ → List SharedEntry → List SharedEntry
truncate zero xs = []
truncate (suc n) [] = zero_entry ∷ truncate n []
truncate (suc n) (x ∷ xs) = x ∷ truncate n xs

-- What the world answers to one call of `resize_shm`: the file descriptor of `shm_open`, the address
-- of `mmap`, what the server does to the object before it responds, and the `request_id` in the
-- buffer after `mq_receive`. `unset` is what the request's other fields happen to hold.
pub record Answers : Type 0 where
  pub shm_open : Option ℕ
  pub mmap : Option ℕ
  pub server : List SharedEntry → List SharedEntry
  pub response_id : ℕ
  pub unset : Request

-- TINYFILE_RESIZE_SHM_ERROR
abbrev pub resize_shm_error : ℕ
resize_shm_error = 7

set_stop_worker : Bool → Cmd Api (Unit {0})
set_stop_worker b = modify (λ s. record s { requests = record (s.requests) { stop_worker = b } })

send_resize : Request → Cmd Api (Unit {0})
send_resize unset =
    modify (λ s. record s { sent = (record unset { request_id = minus_one }, 100) ∷ s.sent })

-- The client moves to the new mapping and starts the worker again.
adopt : ℕ → ℕ → ℕ → Cmd Api ℕ
adopt fd new_size addr = do
  modify (λ s. record s { shm_addr = addr; mapped = new_size; shm_fd = fd })
  unlock_resize
  set_stop_worker false
  pure 0

-- The part behind `mmap`.
exchange : Answers → ℕ → ℕ → ℕ → Cmd Api ℕ
exchange w fd new_size addr = do
  send_resize w.unset
  modify (λ s. record s { entries = w.server s.entries })
  if w.response_id == minus_one
      then adopt fd new_size addr
      else (unlock_resize >> pure resize_shm_error)

module _ (sizeof_entry : ℕ) where
  -- The size that `resize_shm` asks for, in `size_t`.
  unfoldable pub new_shm_size : Api → ℕ
  new_shm_size s =
      ((s.mapped / sizeof_entry + size_of_int s.shm_size / sizeof_entry) * sizeof_entry) % 2 ^ 64

  remap : Answers → ℕ → ℕ → Cmd Api ℕ
  remap w new_size fd = do
    modify (λ s. record s { entries = truncate (new_size / sizeof_entry) s.entries })
    elim w.mmap [ none ↦ pure resize_shm_error | some addr ↦ exchange w fd new_size addr ]

  -- `resize_shm`. The two returns on a failed `shm_open` or `mmap` keep `shm_resize_lock`, and leave
  -- the worker stopped, as the source does.
  pub resize_shm : Answers → Cmd Api ℕ
  resize_shm w = do
    new_size ← gets new_shm_size
    max ← gets (λ s. size_of_int s.shm_max_size)
    if ltb max new_size then pure 0 else do
      set_stop_worker true
      lock_resize
      elim w.shm_open [ none ↦ pure resize_shm_error | some fd ↦ remap w new_size fd ]
