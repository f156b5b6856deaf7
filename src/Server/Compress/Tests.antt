-- ===== src/Server/Compress/Tests.antt =====
-- Concrete files and compressors, at which the theorems on the service apply.
use tinyfile.Common.{ℕ, ◌+◌, ◌≡◌, refl, true, false, some, List, [], ◌∷◌, arith, replicate}
use tinyfile.Common.Run.{ok, fault}
use tinyfile.Types.{Arg}
use tinyfile.Server.Compress.{World, until_nul, suffix, compress_service}
use tinyfile.Server.Compress.Results.{
  Reads, block, until_nul-append, compress_service-writes, compress_service-cut,
  compress_service-long,
}

-- A file of two bytes, a disk that takes it, and a compressor.
abbrev pub world_of : (List ℕ → List ℕ) → World
world_of compressor = record {
  fopen_read = λ _. true;
  fseek_end = true;
  ftell = some 2;
  fseek_set = true;
  fread = λ _. 104 ∷ 105 ∷ [];
  ferror = false;
  fopen_write = λ _. true;
  malloc = λ n. replicate n 0;
  snappy_max_compressed_length = λ n. n + 32;
  snappy_compress = compressor;
}

-- A compressor that keeps the bytes, and one that separates them by a NUL.
abbrev pub keeping : List ℕ → List ℕ
keeping bytes = bytes

abbrev separating : List ℕ → List ℕ
separating [] = []
separating (b ∷ bs) = b ∷ 0 ∷ separating bs

abbrev pub file : Arg
file = record { source_file_path = 97 ∷ []; compressed_file_path = [] }

pub keeping-Reads : Reads (world_of keeping) file (104 ∷ 105 ∷ [])
keeping-Reads = record {
  opens = refl;
  ends = refl;
  size = refl;
  rewinds = refl;
  reads = refl;
  no_error = refl;
  block = refl;
  room = omega arith;
}

-- The same, of any path.
pub any-Reads : (arg : Arg) → Reads (world_of keeping) arg (104 ∷ 105 ∷ [])
any-Reads arg = record {
  opens = refl;
  ends = refl;
  size = refl;
  rewinds = refl;
  reads = refl;
  no_error = refl;
  block = refl;
  room = omega arith;
}

pub keeping-text : until_nul (block (world_of keeping) (104 ∷ 105 ∷ [])) ≡ some (104 ∷ 105 ∷ [])
keeping-text = until_nul-append (104 ∷ 105 ∷ []) (replicate 31 0) (omega arith, (omega arith, tt))

separating-Reads : Reads (world_of separating) file (104 ∷ 105 ∷ [])
separating-Reads = record {
  opens = refl;
  ends = refl;
  size = refl;
  rewinds = refl;
  reads = refl;
  no_error = refl;
  block = refl;
  room = omega arith;
}

compress_service-writes_example :
    compress_service (world_of keeping) file []
    ≡ ok
        (0, record file { compressed_file_path = 97 ∷ suffix })
        ((97 ∷ suffix, 104 ∷ 105 ∷ []) ∷ [])
compress_service-writes_example =
    compress_service-writes (world_of keeping) file (104 ∷ 105 ∷ []) keeping-Reads []
      (104 ∷ 105 ∷ []) (omega arith) refl keeping-text

compress_service-cut_example :
    compress_service (world_of separating) file []
    ≡ ok (0, record file { compressed_file_path = 97 ∷ suffix }) ((97 ∷ suffix, 104 ∷ []) ∷ [])
compress_service-cut_example =
    compress_service-cut (world_of separating) file (104 ∷ 105 ∷ []) separating-Reads [] (104 ∷ [])
      (105 ∷ 0 ∷ []) (omega arith) refl (omega arith, tt) refl

-- A path of 139 bytes.
abbrev far : Arg
far = record { source_file_path = replicate 139 97; compressed_file_path = [] }

far-Reads : Reads (world_of keeping) far (104 ∷ 105 ∷ [])
far-Reads = record {
  opens = refl;
  ends = refl;
  size = refl;
  rewinds = refl;
  reads = refl;
  no_error = refl;
  block = refl;
  room = omega arith;
}

compress_service-long_example : compress_service (world_of keeping) far [] ≡ fault
compress_service-long_example =
    compress_service-long (world_of keeping) far (104 ∷ 105 ∷ []) far-Reads [] (omega arith)
