-- ===== src/Server/Compress.antt =====
-- src/server/server.c: `compress_service`. The C library, snappy and what `malloc` returns are given as
-- a record; a file that is written is put on a list.
pub mod Codes
pub mod Local
pub mod Results
pub mod Tests
use tinyfile.Common.{
  ℕ, ◌+◌, ◌≤◌, Bool, true, false, Option, none, some, List, [], ◌∷◌, ◌++◌, ltb, ◌==◌, not,
  if◌then◌else◌, length, take, drop,
}
use tinyfile.Common.Run.{fault, Cmd, pure, ◌>>=◌, ◌>>◌, modify, need}
use tinyfile.Types.{CString, Arg, minus_one}

-- What the calls of one `compress_service` answer. `ftell` is `none` for -1; `fread n` are the bytes
-- read of the `n` that are asked for; `malloc n` are the bytes that a block of `n` holds at first.
-- `snappy_compress` is given the bytes that it is told to read.
pub record World : Type 0 where
  pub fopen_read : CString → Bool
  pub fseek_end : Bool
  pub ftell : Option ℕ
  pub fseek_set : Bool
  pub fread : ℕ → List ℕ
  pub ferror : Bool
  pub fopen_write : CString → Bool
  pub malloc : ℕ → List ℕ
  pub snappy_max_compressed_length : ℕ → ℕ
  pub snappy_compress : List ℕ → List ℕ

-- The files written, last first, each with its path and its bytes.
abbrev pub Disk : Type 0
Disk = List (CString × List ℕ)

-- The C string at the start of a block of memory; `none` if no byte of it is NUL.
pub until_nul : List ℕ → Option CString
until_nul [] = none
until_nul (b ∷ bs) =
    if b == 0 then some [] else elim (until_nul bs) [ none ↦ none | some s ↦ some (b ∷ s) ]

-- ".compressed"
abbrev pub suffix : CString
suffix = 46 ∷ 99 ∷ 111 ∷ 109 ∷ 112 ∷ 114 ∷ 101 ∷ 115 ∷ 115 ∷ 101 ∷ 100 ∷ []

-- `strcpy` and `strcat` into `char[150]`: the string and its NUL have to fit.
strcpy : CString → Cmd Disk CString
strcpy s = if ltb (length s) 150 then pure s else (λ _. fault)

strcat : CString → CString → Cmd Disk CString
strcat s t = if ltb (length s + length t) 150 then pure (s ++ t) else (λ _. fault)

-- The block with `bytes` at its start; they have to fit.
fill : List ℕ → List ℕ → Cmd Disk (List ℕ)
fill block bytes =
    if ltb (length block) (length bytes)
    then (λ _. fault)
    else pure (bytes ++ drop (length bytes) block)

-- The part that reads the file: its size and the bytes read; `none` for a return of -1.
read_source : World → CString → Option (ℕ × List ℕ)
read_source w path =
    if not (w.fopen_read path) then none else if not w.fseek_end then none else elim w.ftell [
      | none ↦ none
      | some buf_size ↦
          if not w.fseek_set
          then none
          else if w.ferror
          then none
          else some (buf_size, w.fread buf_size)
    ]

-- What snappy is handed: `buf_size` bytes of a block of `buf_size + 1` into which the file was read.
compress : World → ℕ → List ℕ → Cmd Disk (List ℕ)
compress w buf_size bytes = do
  source ← fill (w.malloc (buf_size + 1)) bytes
  fill (w.malloc (w.snappy_max_compressed_length (length bytes)))
      (w.snappy_compress (take buf_size source))

-- `fprintf(fp, "%s", compressed)`
write_out : World → Arg → List ℕ → Cmd Disk (ℕ × Arg)
write_out w arg compressed =
    if not (w.fopen_write arg.compressed_file_path) then pure (minus_one, arg) else do
      text ← need (until_nul compressed)
      modify (λ disk. (arg.compressed_file_path, text) ∷ disk)
      pure (0, arg)

-- The result, and the argument as it is left.
pub compress_service : World → Arg → Cmd Disk (ℕ × Arg)
compress_service w arg = elim (read_source w arg.source_file_path) [
  | none ↦ pure (minus_one, arg)
  | some (buf_size, bytes) ↦ (do
    compressed ← compress w buf_size bytes
    copied ← strcpy arg.source_file_path
    path ← strcat copied suffix
    write_out w (record arg { compressed_file_path = path }) compressed)
]
