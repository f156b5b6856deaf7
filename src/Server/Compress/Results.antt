-- ===== src/Server/Compress/Results.antt =====
-- src/server/server.c: the results of `compress_service`, and what it writes.
use tinyfile.Common.{
  ℕ, ◌+◌, ◌≤◌, ◌<◌, ◌≡◌, refl, true, false, none, some, List, [], ◌∷◌, ◌++◌, arith, ltb, ◌==◌,
  length, drop, take-append, append_assoc, ◌≢◌, ◌⊎◌, Bool-cases, inl, inr,
}
use tinyfile.Common.Run.{ok, fault}
use tinyfile.Types.{CString, Arg, minus_one}
use tinyfile.Server.Compress.{
  World, Disk, until_nul, suffix, strcpy, strcat, fill, read_source, compress, write_out,
  compress_service,
}

-- No byte is NUL.
abbrev pub NoNul : List ℕ → Type 0
NoNul [] = Unit {0}
NoNul (b ∷ bs) = (b ≢ 0) × NoNul bs

pub until_nul-append : (s rest : List ℕ) → NoNul s → until_nul (s ++ (0 ∷ rest)) ≡ some s
unfolding until_nul
until_nul-append [] rest n = refl
until_nul-append (b ∷ s) rest (nz, n) =
    let off : (b == 0) ≡ false = ground arith in rw (off, until_nul-append s rest n)

-- A file that can be read to its end, and a copy of it for which every buffer is large enough.
pub record Reads (w : World) (arg : Arg) (bytes : List ℕ) : Type 0 where
  pub opens : w.fopen_read arg.source_file_path ≡ true
  pub ends : w.fseek_end ≡ true
  pub size : w.ftell ≡ some (length bytes)
  pub rewinds : w.fseek_set ≡ true
  pub reads : w.fread (length bytes) ≡ bytes
  pub no_error : w.ferror ≡ false
  pub block : length (w.malloc (length bytes + 1)) ≡ length bytes + 1
  pub room :
      length (w.snappy_compress bytes)
      ≤ length (w.malloc (w.snappy_max_compressed_length (length bytes)))

-- The block that holds the compressed bytes, with what `malloc` left behind them.
abbrev pub block : World → List ℕ → List ℕ
block w bytes =
    w.snappy_compress bytes
    ++ drop (length (w.snappy_compress bytes))
        (w.malloc (w.snappy_max_compressed_length (length bytes)))

module _ (w : World) (arg : Arg) (bytes : List ℕ) (r : Reads w arg bytes) where
  read_source-Reads : read_source w arg.source_file_path ≡ some (length bytes, bytes)
  unfolding read_source
  read_source-Reads = rw (r.opens, r.ends, r.size, r.rewinds, r.no_error, r.reads)

  compress-block : (disk : Disk) → compress w (length bytes) bytes disk ≡ ok (block w bytes) disk
  unfolding compress fill
  compress-block disk =
      let fits : ltb (length (w.malloc (length bytes + 1))) (length bytes) ≡ false =
        ground (arith, r.block) in
      let room : ltb (length (w.malloc (w.snappy_max_compressed_length (length bytes))))
            (length (w.snappy_compress bytes))
          ≡ false =
        ground (arith, r.room) in
      rw (fits, take-append bytes, room)

  -- If the source can be read and the blocks are large enough (`Reads`), a path of 139 bytes or more, which
  -- leaves no room for the suffix and the NUL behind it, is written past its array.
  pub compress_service-long :
      (disk : Disk) → 139 ≤ length arg.source_file_path → compress_service w arg disk ≡ fault
  unfolding compress_service strcpy strcat
  compress_service-long disk long =
      let past : ltb (length arg.source_file_path + length suffix) 150 ≡ false = ground arith in
      elim (Bool-cases (ltb (length arg.source_file_path) 150)) [
        | inl copies ↦ rw (read_source-Reads, compress_service, compress-block disk, copies, past)
        | inr overflows ↦ rw (read_source-Reads, compress_service, compress-block disk, overflows)
      ]

  -- If the source can be read and the blocks are large enough (`Reads`), the path is shorter than 139 bytes,
  -- the file of the new path opens, and the block of the compressed bytes has a NUL: the service returns 0
  -- and gives the new path, which is the source's with ".compressed" behind it, and a file is
  -- written at this path, with the bytes of the block up to its first NUL.
  pub compress_service-writes :
      (disk : Disk) (text : CString)
      → length arg.source_file_path < 139
      → w.fopen_write (arg.source_file_path ++ suffix) ≡ true
      → until_nul (block w bytes) ≡ some text
      → compress_service w arg disk
        ≡ ok
            (0, record arg { compressed_file_path = arg.source_file_path ++ suffix })
            ((arg.source_file_path ++ suffix, text) ∷ disk)
  unfolding compress_service strcpy strcat write_out
  compress_service-writes disk text short opens nul =
      let copies : ltb (length arg.source_file_path) 150 ≡ true = ground arith in
      let fits : ltb (length arg.source_file_path + length suffix) 150 ≡ true = ground arith in
      rw (read_source-Reads, compress_service, compress-block disk, copies, fits, opens, nul)

  -- If the source can be read and the blocks are large enough (`Reads`), the path is shorter than 139 bytes
  -- and the file of the new path opens, and snappy's output has a NUL byte: the service returns 0 and gives
  -- the new path, and the file gets only the bytes of the output before the first NUL.
  pub compress_service-cut :
      (disk : Disk) (before rest : List ℕ)
      → length arg.source_file_path < 139
      → w.fopen_write (arg.source_file_path ++ suffix) ≡ true
      → NoNul before
      → w.snappy_compress bytes ≡ before ++ (0 ∷ rest)
      → compress_service w arg disk
        ≡ ok
            (0, record arg { compressed_file_path = arg.source_file_path ++ suffix })
            ((arg.source_file_path ++ suffix, before) ∷ disk)
  compress_service-cut disk before rest short opens clean out =
      compress_service-writes disk before short opens
        (rw (out, append_assoc before (0 ∷ rest)) (until_nul-append before _ clean))

-- A file that cannot be opened, measured, rewound or read: -1, the argument as it was, nothing written.
pub compress_service-unread :
    (w : World) (arg : Arg) (disk : Disk)
    → (w.fopen_read arg.source_file_path ≡ false)
      ⊎ (w.fseek_end ≡ false)
      ⊎ (w.ftell ≡ none)
      ⊎ (w.fseek_set ≡ false)
      ⊎ (w.ferror ≡ true)
    → compress_service w arg disk ≡ ok (minus_one, arg) disk
unfolding compress_service read_source
compress_service-unread w arg disk h = ground arith
