-- ===== src/Types.antt =====
-- include/tinyfile/types.h, messages.h and params.h: the values that client and server exchange.
-- A `char` array that holds a C string is the list of the bytes before its terminating NUL; the
-- functions that write one check its capacity. A 32-bit `int` is its bit pattern, below 2 ^ 32.
use tinyfile.Common.{ℕ, ◌+◌, ◌-◌, ◌*◌, ◌%◌, ◌^◌, Bool, List, [], ◌∷◌, ltb, if◌then◌else◌}

-- The bytes of a C string, with no NUL among them.
abbrev pub CString : Type 0
CString = List ℕ

pub record Arg : Type 0 where
  pub source_file_path : CString
  pub compressed_file_path : CString

-- A value of `tinyfile_service_t` as it arrives: the one enumerator, or any other number.
pub data Service : Type 0 where
  compress : Service
  unknown_service : ℕ → Service

-- The index of a request's entry, an `int`.
abbrev pub EntryIdx : Type 0
EntryIdx = ℕ

-- An `unsigned int`.
abbrev pub Priority : Type 0
Priority = ℕ

pub data RegistryCmd : Type 0 where
  client_register client_unregister client_close server_close : RegistryCmd

pub record RegistryEntry : Type 0 where
  pub cmd : RegistryCmd
  pub pid : ℕ
  pub send_q_name : CString
  pub recv_q_name : CString
  pub shm_name : CString

pub record Request : Type 0 where
  pub service : Service
  pub priority : ℕ
  pub request_id : ℕ
  pub entry_idx : ℕ
  pub pid : ℕ

-- `used` and `done` are flags; the mutex of an entry guards short blocks, each one step here.
pub record SharedEntry : Type 0 where
  pub used : Bool
  pub done : Bool
  pub arg : Arg

pub record Response : Type 0 where
  pub request_id : ℕ
  pub entry_idx : ℕ
  pub arg : Arg

-- -1 as an `int`.
abbrev pub minus_one : ℕ
minus_one = 2 ^ 32 - 1

-- `(int) x` for a `size_t`, and the conversion of an `int` to `size_t`, which extends its sign.
abbrev pub int_of_size : ℕ → ℕ
int_of_size x = x % 2 ^ 32

abbrev pub size_of_int : ℕ → ℕ
size_of_int x = if ltb x (2 ^ 31) then x else x + (2 ^ 64 - 2 ^ 32)

-- "/tinyfile-registryq", TINYFILE_REGISTRY_QUEUE.
abbrev pub registry_queue : CString
registry_queue =
    47 ∷ 116 ∷ 105 ∷ 110 ∷ 121 ∷ 102 ∷ 105 ∷ 108 ∷ 101 ∷ 45 ∷ 114 ∷ 101 ∷ 103 ∷ 105 ∷ 115 ∷ 116
    ∷ 114 ∷ 121 ∷ 113 ∷ []

-- The defaults of TINYFILE_SHM_SIZE and TINYFILE_SHM_MAX_SIZE.
abbrev pub default_shm_size : ℕ
default_shm_size = 1024

abbrev pub default_shm_max_size : ℕ
default_shm_max_size = 1024 * 1024
