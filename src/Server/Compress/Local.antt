-- ===== src/Server/Compress/Local.antt =====
-- src/server/server.c, `compress_service`: what it does does not hang on the files that are there, and it
-- writes one file at most, beside its source.
use tinyfile.Common.{
  ℕ, ◌+◌, ◌≡◌, refl, List, [], ◌∷◌, ◌++◌, append_assoc, ap, sym, ◌∙◌, Bool-cases, Option-cases, inl,
  inr, not, ltb, length, ◌⊎◌, take,
}
use tinyfile.Common.Run.{Run, ok, fault, blocked, out_of_fuel, Cmd, ◌>>=◌, then_run}
use tinyfile.Common.Gives
use tinyfile.Common.Gives.{Gives, gives, faults, returned}
use tinyfile.Types.{CString, Arg}
use tinyfile.Server.Compress.{
  World, Disk, read_source, compress, fill, strcpy, strcat, suffix, write_out, until_nul,
  compress_service,
}

-- The same run, with the files of `d` behind.
abbrev pub beside : {A : Type 0} → Disk → Run Disk A → Run Disk A
beside d (ok a e) = ok a (e ++ d)
beside d fault = fault
beside d blocked = blocked
beside d out_of_fuel = out_of_fuel

-- A command that neither reads nor removes files.
abbrev pub IsLocal : {A : Type 0} → Cmd Disk A → Type 0
IsLocal m = (d : Disk) → m d ≡ beside d (m [])

then_run-beside :
    {A B : Type 0} (d : Disk) (r : Run Disk A) (k : A → Cmd Disk B)
    → ((a : A) → IsLocal (k a))
    → then_run (beside d r) k ≡ beside d (then_run r k)
then_run-beside d (ok a e) k local = rw (local a (e ++ d), local a e) (joined (k a []) e d)
  where
    joined : {B : Type 0} (r : Run Disk B) (e d : Disk) → beside (e ++ d) r ≡ beside d (beside e r)
    joined (ok b f) e d = ap (ok b) (sym (append_assoc f e d))
    joined fault e d = refl
    joined blocked e d = refl
    joined out_of_fuel e d = refl
then_run-beside d fault k local = refl
then_run-beside d blocked k local = refl
then_run-beside d out_of_fuel k local = refl

bind-IsLocal :
    {A B : Type 0} (m : Cmd Disk A) (k : A → Cmd Disk B)
    → IsLocal m
    → ((a : A) → IsLocal (k a))
    → IsLocal (m >>= k)
bind-IsLocal m k local locals d = rw (local d) (then_run-beside d (m []) k locals)

fill-IsLocal : (block bytes : List ℕ) → IsLocal (fill block bytes)
unfolding fill
fill-IsLocal block bytes d = elim (Bool-cases (ltb (length block) (length bytes))) [
  | inl past ↦ rw past refl
  | inr fits ↦ rw fits refl
]

compress-IsLocal : (w : World) (size : ℕ) (bytes : List ℕ) → IsLocal (compress w size bytes)
unfolding compress
compress-IsLocal w size bytes =
    bind-IsLocal (fill (w.malloc (size + 1)) bytes) _ (fill-IsLocal (w.malloc (size + 1)) bytes)
      λ source. fill-IsLocal _ (w.snappy_compress (take size source))

strcpy-IsLocal : (s : CString) → IsLocal (strcpy s)
unfolding strcpy
strcpy-IsLocal s d = elim (Bool-cases (ltb (length s) 150)) [
  | inl fits ↦ rw fits refl
  | inr past ↦ rw past refl
]

strcat-IsLocal : (s t : CString) → IsLocal (strcat s t)
unfolding strcat
strcat-IsLocal s t d = elim (Bool-cases (ltb (length s + length t) 150)) [
  | inl fits ↦ rw fits refl
  | inr past ↦ rw past refl
]

write_out-IsLocal : (w : World) (arg : Arg) (bytes : List ℕ) → IsLocal (write_out w arg bytes)
unfolding write_out
write_out-IsLocal w arg bytes d = elim (Bool-cases (not (w.fopen_write arg.compressed_file_path))) [
  | inl failed ↦ rw failed refl
  | inr opened ↦ elim (Option-cases (until_nul bytes)) [
    | inl no_nul ↦ rw (opened, no_nul) refl
    | inr (text, nul) ↦ rw (opened, nul) refl
  ]
]

-- `compress_service` gives the same result whatever files are there, and puts its file before them.
pub compress_service-IsLocal : (w : World) (arg : Arg) → IsLocal (compress_service w arg)
unfolding compress_service
compress_service-IsLocal w arg d = elim (Option-cases (read_source w arg.source_file_path)) [
  | inl unread ↦ rw (unread, compress_service) refl
  | inr ((size, bytes), read) ↦
      rw (read, compress_service)
        (bind-IsLocal (compress w size bytes) _ (compress-IsLocal w size bytes)
          (λ compressed.
            bind-IsLocal (strcpy arg.source_file_path) _ (strcpy-IsLocal arg.source_file_path)
              λ copied.
                bind-IsLocal (strcat copied suffix) _ (strcat-IsLocal copied suffix) λ path.
                  write_out-IsLocal w (record arg { compressed_file_path = path }) compressed)
          d)
]

-- No file, or one at the path `p`.
abbrev pub AtMostAt : CString → Disk → Type 0
AtMostAt p e = (e ≡ []) ⊎ ((text : CString) × (e ≡ (p, text) ∷ []))

strcat-adds :
    (s t : CString) (d : Disk) → Gives (λ path e. (path ≡ s ++ t) × (e ≡ d)) (strcat s t d)
unfolding strcat
strcat-adds s t d = elim (Bool-cases (ltb (length s + length t) 150)) [
  | inl fits ↦ rw fits (gives (refl, refl))
  | inr past ↦ rw past faults
]

strcpy-keeps : (s : CString) (d : Disk) → Gives (λ copied e. (copied ≡ s) × (e ≡ d)) (strcpy s d)
unfolding strcpy
strcpy-keeps s d = elim (Bool-cases (ltb (length s) 150)) [
  | inl fits ↦ rw fits (gives (refl, refl))
  | inr past ↦ rw past faults
]

fill-keeps : (block bytes : List ℕ) (d : Disk) → Gives (λ _ e. e ≡ d) (fill block bytes d)
unfolding fill
fill-keeps block bytes d = elim (Bool-cases (ltb (length block) (length bytes))) [
  | inl past ↦ rw past faults
  | inr fits ↦ rw fits (gives refl)
]

compress-keeps :
    (w : World) (size : ℕ) (bytes : List ℕ) (d : Disk)
    → Gives (λ _ e. e ≡ d) (compress w size bytes d)
unfolding compress
compress-keeps w size bytes d =
    Gives.after (fill-keeps (w.malloc (size + 1)) bytes d)
      λ source e same. rw same (fill-keeps _ _ d)

write_out-AtMostAt :
    (w : World) (arg : Arg) (bytes : List ℕ)
    → Gives (λ _ e. AtMostAt arg.compressed_file_path e) (write_out w arg bytes [])
unfolding write_out
write_out-AtMostAt w arg bytes = elim (Bool-cases (not (w.fopen_write arg.compressed_file_path))) [
  | inl failed ↦ rw failed (gives (inl refl))
  | inr opened ↦ elim (Option-cases (until_nul bytes)) [
    | inl no_nul ↦ rw (opened, no_nul) faults
    | inr (text, nul) ↦ rw (opened, nul) (gives (inr (text, refl)))
  ]
]

-- If `compress_service` returns, it has written no file, or one at the source's path with ".compressed".
pub compress_service-AtMostAt :
    (w : World) (arg : Arg)
    → Gives (λ _ e. AtMostAt (arg.source_file_path ++ suffix) e) (compress_service w arg [])
unfolding compress_service
compress_service-AtMostAt w arg = elim (Option-cases (read_source w arg.source_file_path)) [
  | inl unread ↦ rw (unread, compress_service) (gives (inl refl))
  | inr ((size, bytes), read) ↦
      rw (read, compress_service)
        (Gives.after (compress-keeps w size bytes []) λ compressed d kept.
          Gives.after (strcpy-keeps arg.source_file_path d) λ copied e (copy, same).
            Gives.after (strcat-adds copied suffix e) λ path f (adds, same').
              rw (adds, copy, same', same, kept)
                (write_out-AtMostAt w
                  (record arg { compressed_file_path = arg.source_file_path ++ suffix })
                  compressed))
]

beside-ok :
    {A : Type 0} (d : Disk) (r : Run Disk A) {a : A} {e : Disk}
    → beside d r ≡ ok a e
    → (n : Disk) × (r ≡ ok a n) × (e ≡ n ++ d)
beside-ok d (ok b n) {a} {e} same =
    let results : b ≡ a = cc in
    let files : n ++ d ≡ e = cc in (n, ap (λ x. ok x n) results, sym files)
beside-ok d fault same = cc
beside-ok d blocked same = cc
beside-ok d out_of_fuel same = cc

-- A run that returned is repeated beside any files: it gives the same, and puts the same file before them.
pub compress_service-anywhere :
    (w : World) (arg : Arg) (d : Disk) {r : ℕ × Arg} {e : Disk}
    → compress_service w arg d ≡ ok r e
    → (n : Disk) × AtMostAt (arg.source_file_path ++ suffix) n
      × ((f : Disk) → compress_service w arg f ≡ ok r (n ++ f))
compress_service-anywhere w arg d ran =
    let local = compress_service-IsLocal w arg in
    let (n, alone, _) = beside-ok d (compress_service w arg []) (sym (local d) ∙ ran) in
    (n, returned (compress_service-AtMostAt w arg) alone, λ f. local f ∙ ap (beside f) alone)
