-- ===== src/System/Sync.antt =====
-- `tinyfile_sync` from the client's argument to the compressed file and back.
use tinyfile.Common.{
  ℕ, ◌<◌, ◌/◌, ◌≡◌, refl, true, false, none, some, ◌⊎◌, List, ◌∷◌, ◌++◌, length, get_elem?, set,
  replicate, get_elem?-set_self,
}
use tinyfile.Common.Run.{ok}
use tinyfile.Common.Returns
use tinyfile.Common.Returns.{Returns}
use tinyfile.Types.{Arg, SharedEntry, Request, CString, compress, minus_one}
use tinyfile.Server.Compress.{World, Disk, compress_service, until_nul, suffix}
use tinyfile.Server.Compress.Results.{
  Reads, block, compress_service-writes, compress_service-unread,
}
use tinyfile.Api.Entries.{taken}
use tinyfile.Server.Worker.Handle.{handle_request-done}
use tinyfile.RequestQ.Chain.{Cells}
use tinyfile.Api.{Api, Others}
use tinyfile.Api.Entries.Poll.{Shows}
use tinyfile.Api.Requests.{Call, tinyfile_sync}
use tinyfile.Api.Requests.Calls.{Ready, made, prepared, Shows-prepared, tinyfile_sync-served}
use tinyfile.System.{view, served}

module _ (sizeof_entry : ℕ) (w : World) (disk disk' : Disk) (req : Request) (code : ℕ)
    (e : SharedEntry) (out : Arg) (asked : req.service ≡ compress)
    (ran : compress_service w e.arg disk ≡ ok (code, out) disk') where
  -- What the client sees of a request that the server handles.
  served-entry :
      (s : Api)
      → req.entry_idx < s.mapped / sizeof_entry
      → get_elem? s.entries req.entry_idx ≡ some e
      → served sizeof_entry w disk req s
        ≡ record s { entries = set s.entries req.entry_idx (record e { arg = out; done = true }) }
  unfolding served
  served-entry s within there =
      rw (
        handle_request-done sizeof_entry w req (view s disk) e within there code out disk' asked
          ran)

  served-Shows :
      (s : Api)
      → Shows sizeof_entry req.entry_idx e s
      → ((served sizeof_entry w disk req s).shm_addr ≡ s.shm_addr)
        × Shows sizeof_entry req.entry_idx
            (record e { arg = out; done = true })
            (served sizeof_entry w disk req s)
  served-Shows s shows = rw (served-entry s shows.within shows.there) (
    refl,
    record {
      open_lock = shows.open_lock;
      within = shows.within;
      there = get_elem?-set_self s.entries req.entry_idx _ shows.there;
    },
  )

-- A request to compress is handled by a worker after `n` polls that fail.
module _ (sizeof_entry : ℕ) (c : Call) (arg : Arg) (priority : ℕ) (s : Api) {i : ℕ} {xs : Cells}
    (ready : Ready sizeof_entry c arg compress priority s i xs)
    (open_lock : s.shm_resize_lock ≡ false) (w : World) (disk : Disk) (n : ℕ) (rest : List Others)
    (polls : c.polling
      ≡ replicate n (λ u. u)
        ++ (served sizeof_entry w disk (made sizeof_entry c arg compress priority s i)
            ∷ rest)) where
  -- The entry as the server leaves it.
  abbrev answered : Arg → SharedEntry
  answered out = record { used = true; done = true; arg = out }

  sync-ran :
      (code : ℕ) (out : Arg) (disk' : Disk)
      → compress_service w arg disk ≡ ok (code, out) disk'
      → Returns
          (λ (result, given) u.
            (result ≡ 0)
            × (given ≡ some out)
            × (get_elem? u.entries i ≡ some (record { used = false; done = false; arg = out })))
          (tinyfile_sync sizeof_entry c arg compress priority s)
  sync-ran code out disk' ran =
      let req = made sizeof_entry c arg compress priority s i in
      let shown =
        λ (t : Api)
            (same : t ≡ record (prepared sizeof_entry c arg compress priority s i) {
              requests = t.requests;
            }).
          served-Shows sizeof_entry w disk disk' req code (taken arg) out refl ran t
            (Shows-prepared sizeof_entry c arg compress priority s ready t open_lock same) in
      Returns.weaken
        (λ (result, given) u (zero_code, right, (t, queued, same, left)).
          (zero_code, right, rw left (get_elem?-set_self _ i _ (shown t same).1.there)))
        (tinyfile_sync-served sizeof_entry c arg compress priority s ready n
          (served sizeof_entry w disk req) rest (answered out) polls open_lock refl
          λ t same queued. shown t same)

  -- End to end: if a worker of the server handles the request after some polls, the source file can be
  -- read, its path leaves room, the new file opens and a NUL stands in the block with the compressed
  -- bytes, then `tinyfile_sync` returns 0 and gives the argument with the path of the compressed file,
  -- which is the source's with ".compressed" behind it; the entry that it used is free again.
  pub tinyfile_sync-compresses :
      (bytes : List ℕ) (text : CString)
      → Reads w arg bytes
      → length arg.source_file_path < 139
      → w.fopen_write (arg.source_file_path ++ suffix) ≡ true
      → until_nul (block w bytes) ≡ some text
      → Returns
          (λ (result, given) u.
            (result ≡ 0)
            × (given ≡ some (record arg { compressed_file_path = arg.source_file_path ++ suffix }))
            × ((e : SharedEntry) × (get_elem? u.entries i ≡ some e) × (e.used ≡ false)))
          (tinyfile_sync sizeof_entry c arg compress priority s)
  tinyfile_sync-compresses bytes text reads short opens nul =
      Returns.weaken (λ _ u (zero_code, right, free). (zero_code, right, (_, free, refl)))
        (sync-ran 0 _ _ (compress_service-writes w arg bytes reads disk text short opens nul))

  -- The failure of the service is lost: if a worker handles the request after some polls and the source
  -- file cannot be opened, measured, rewound or read, `tinyfile_sync` returns 0 as well, with the
  -- argument as it was.
  pub tinyfile_sync-unread :
      (w.fopen_read arg.source_file_path ≡ false)
        ⊎ (w.fseek_end ≡ false)
        ⊎ (w.ftell ≡ none)
        ⊎ (w.fseek_set ≡ false)
        ⊎ (w.ferror ≡ true)
      → Returns
          (λ (result, given) u. (result ≡ 0) × (given ≡ some arg))
          (tinyfile_sync sizeof_entry c arg compress priority s)
  tinyfile_sync-unread fails =
      Returns.weaken (λ _ u (zero_code, right, free). (zero_code, right))
        (sync-ran minus_one arg disk (compress_service-unread w arg disk fails))
