-- ===== src/Server/Compress/Codes.antt =====
-- src/server/server.c: what `compress_service` gives whenever it returns.
use tinyfile.Common.{ℕ, ◌≡◌, refl, ◌⊎◌, inl, inr, Bool-cases, Option-cases, List, not}
use tinyfile.Common.Run.{need}
use tinyfile.Common.Gives.{Gives, gives, whatever}
use tinyfile.Types.{Arg, minus_one}
use tinyfile.Server.Compress.{
  World, Disk, read_source, compress, strcpy, strcat, suffix, write_out, until_nul,
  compress_service,
}

-- A result of `compress_service`: a code, and an argument with the source path of `arg`.
abbrev pub Answered : Arg → ℕ × Arg → Type 0
Answered arg r = ((r.0 ≡ 0) ⊎ (r.0 ≡ minus_one)) × (r.1.source_file_path ≡ arg.source_file_path)

write_out-Answered :
    (w : World) (arg : Arg) (bytes : List ℕ) (disk : Disk)
    → Gives (λ r _. Answered arg r) (write_out w arg bytes disk)
unfolding write_out
write_out-Answered w arg bytes disk =
    elim (Bool-cases (not (w.fopen_write arg.compressed_file_path))) [
      | inl failed ↦ rw failed (gives (inr refl, refl))
      | inr opened ↦
          rw opened (whatever (need (until_nul bytes) disk) λ _ t. gives (inl refl, refl))
    ]

pub compress_service-Answered :
    (w : World) (arg : Arg) (disk : Disk)
    → Gives (λ r _. Answered arg r) (compress_service w arg disk)
unfolding compress_service
compress_service-Answered w arg disk = elim (Option-cases (read_source w arg.source_file_path)) [
  | inl unread ↦ rw (unread, compress_service) (gives (inr refl, refl))
  | inr ((size, bytes), read) ↦
      rw (read, compress_service)
        (whatever (compress w size bytes disk) λ out t.
          whatever (strcpy arg.source_file_path t) λ copied u.
            whatever (strcat copied suffix u)
              λ path v. write_out-Answered w (record arg { compressed_file_path = path }) out v)
]
