-- ===== src/Server/Interface.antt =====
-- include/tinyfile/server.h: the functions that the server's parts call of each other, by the groups of
-- the header, over the state `S` of the server.
use tinyfile.Common.{ℕ, ◌≡◌, ◌⊎◌, Bool, Option, none, some}
use tinyfile.Common.Run.{Cmd}
use tinyfile.Common.Memory.{Ptr, null}
use tinyfile.Common.Gives.{Gives}
use tinyfile.Types.{Arg, RegistryEntry, Request, minus_one}
use tinyfile.Server.{Client}

-- Client list management.
pub record ClientList (S : Type 0) : Type 0 where
  pub find_client : ℕ → Cmd S Ptr
  pub remove_client : Ptr → Cmd S (Unit {0})
  pub append_client : Ptr → Cmd S (Unit {0})

-- Client registration functions; `none` is `exit(EXIT_FAILURE)`.
pub record Registration (S : Type 0) : Type 0 where
  pub register_client : RegistryEntry → Cmd S (Option ℕ)
  pub unregister_client : (pid : ℕ) → (close : Bool) → Cmd S ℕ

-- POSIX IPC setup and cleanup. `open_shm` gives the client that it was handed as it leaves it, `none`
-- is `exit(EXIT_FAILURE)`; `resize_shm` gives the number of its message, `init_server` whether it returns.
pub record Ipc (S : Type 0) : Type 0 where
  pub open_shm : RegistryEntry → Client → Cmd S (Option Client)
  pub resize_shm : Ptr → Cmd S (Option ℕ)
  pub init_server : Cmd S Bool
  pub exit_server : Cmd S (Unit {0})

-- Server API functions. `compress_service` gives its argument as it leaves it.
pub record Services (S : Type 0) : Type 0 where
  pub compress_service : Arg → Cmd S (ℕ × Arg)
  pub handle_request : Request → Ptr → Cmd S (Unit {0})

-- The functions of the header.
pub record ServerApi (S : Type 0) : Type 0 where
  pub list : ClientList S
  pub registration : Registration S
  pub ipc : Ipc S
  pub services : Services S

-- What a caller relies on whenever a call returns; `head` is the head of the list in a state.
pub record IsServer {S : Type 0} (head : S → Ptr) (api : ServerApi S) : Type 0 where
  -- A search changes nothing.
  pub find_keeps : (pid : ℕ) (s : S) → Gives (λ _ t. t ≡ s) (api.list.find_client pid s)
  -- Only an empty list gets a new head.
  pub append_head :
      (p : Ptr) (s : S)
      → Gives (λ _ t. (head t ≡ p) ⊎ (head t ≡ head s)) (api.list.append_client p s)
  -- A list keeps its head, or is empty.
  pub remove_head :
      (p : Ptr) (s : S)
      → Gives (λ _ t. (head t ≡ null) ⊎ (head t ≡ head s)) (api.list.remove_client p s)
  pub register_code :
      (e : RegistryEntry) (s : S)
      → Gives (λ code _. (code ≡ none) ⊎ (code ≡ some 0)) (api.registration.register_client e s)
  pub unregister_code :
      (pid : ℕ) (close : Bool) (s : S)
      → Gives (λ code _. code ≡ 0) (api.registration.unregister_client pid close s)
  -- A request is served, and a memory made larger, with the list of clients left alone.
  pub handle_head :
      (req : Request) (p : Ptr) (s : S)
      → Gives (λ _ t. head t ≡ head s) (api.services.handle_request req p s)
  pub resize_head : (p : Ptr) (s : S) → Gives (λ _ t. head t ≡ head s) (api.ipc.resize_shm p s)
  -- The code is 0 or -1, and the source path is not touched.
  pub compress_code :
      (arg : Arg) (s : S)
      → Gives
          (λ r t.
            ((r.0 ≡ 0) ⊎ (r.0 ≡ minus_one))
            × (r.1.source_file_path ≡ arg.source_file_path)
            × (head t ≡ head s))
          (api.services.compress_service arg s)
