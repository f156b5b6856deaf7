-- ===== src/Api/Session/Resources.antt =====
-- src/api/api.c: what a session creates and destroys, as resources with one law.
use tinyfile.Common.{
  ℕ, ◌≡◌, refl, true, false, Option-cases, inl, inr, List, arith, ◌==◌, not, if◌then◌else◌, ◌++◌,
}
use tinyfile.Common.Run.{Cmd, pure, ◌>>=◌, ◌>>◌}
use tinyfile.Common.Gives.{Gives, gives}
use tinyfile.Types.{CString}
use tinyfile.Api.Session.{
  Session, Opening, sendq_prefix, recvq_prefix, decimal, create_queues, same_name, create_shm,
  destroy_queues, destroy_shm,
}
use tinyfile.Api.Session.Lifetime.{unlink-newest, unlink-behind}

-- Something whose creation gives a code and leaves names in the system.
pub record Resource (S : Type 0) : Type 1 where
  pub Names : Type 0
  pub names : S → Names
  pub create : Cmd S ℕ
  pub destroy : Cmd S ℕ
  -- Destroyed at once after a creation that gives 0, it gives 0 and leaves the names as they were.
  pub leaves :
      (s : S)
      → Gives
          (λ code t. code ≡ 0 → Gives (λ done u. (done ≡ 0) × (names u ≡ names s)) (destroy t))
          (create s)

pub prefixes-apart :
    (p : ℕ) → same_name (sendq_prefix ++ decimal p) (recvq_prefix ++ decimal p) ≡ false
unfolding same_name
prefixes-apart p = refl

-- The two message queues.
abbrev pub queues : Opening → Resource Session
unfolding create_queues destroy_queues
queues w = record {
  Names = List CString;
  names = λ s. s.queues;
  create = create_queues w;
  destroy = destroy_queues >> pure 0;
  leaves = λ s. elim (Option-cases w.open_send_q) [
    | inl failed ↦ rw failed (gives λ e. absurd (omega (arith, e)))
    | inr (send_q, opened) ↦ elim (Option-cases w.open_recv_q) [
      | inl failed ↦ rw (opened, failed) (gives λ e. absurd (omega (arith, e)))
      | inr (recv_q, both) ↦
          rw (opened, both)
            (gives λ e.
              simp (unlink-behind _ _ s.queues (prefixes-apart w.pid), unlink-newest)
                (gives (refl, refl)))
    ]
  ];
}

module _ (sizeof_entry : ℕ) where
  -- The shared memory object.
  abbrev pub shm : Opening → Resource Session
  unfolding create_shm destroy_shm
  shm w = record {
    Names = List CString;
    names = λ s. s.shms;
    create = create_shm sizeof_entry w;
    destroy = destroy_shm true;
    leaves = λ s. elim (Option-cases w.shm_open) [
      | inl failed ↦ rw failed (gives λ e. absurd (omega (arith, e)))
      | inr (fd, opened) ↦ elim (Option-cases w.mmap) [
        | inl failed ↦ rw (opened, failed) (gives λ e. absurd (omega (arith, e)))
        | inr (addr, mapped) ↦
            rw (opened, mapped) (gives λ e. simp unlink-newest (gives (refl, refl)))
      ]
    ];
  }

  -- Both, in the order of `tinyfile_init` and `tinyfile_exit`.
  abbrev pub queues_and_shm : Opening → Resource Session
  unfolding create_queues destroy_queues create_shm destroy_shm
  queues_and_shm w = record {
    Names = List CString × List CString;
    names = λ s. (s.queues, s.shms);
    create = do
      error ← create_queues w
      if not (error == 0) then pure error else create_shm sizeof_entry w;
    destroy = destroy_queues >> destroy_shm true;
    leaves = λ s. elim (Option-cases w.open_send_q) [
      | inl failed ↦ rw failed (gives λ e. absurd (omega (arith, e)))
      | inr (send_q, opened) ↦ elim (Option-cases w.open_recv_q) [
        | inl failed ↦ rw (opened, failed) (gives λ e. absurd (omega (arith, e)))
        | inr (recv_q, both) ↦ elim (Option-cases w.shm_open) [
          | inl failed ↦ rw (opened, both, failed) (gives λ e. absurd (omega (arith, e)))
          | inr (fd, created) ↦ elim (Option-cases w.mmap) [
            | inl failed ↦ rw (opened, both, created, failed) (gives λ e. absurd (omega (arith, e)))
            | inr (addr, mapped) ↦
                rw (opened, both, created, mapped)
                  (gives λ e.
                    simp (unlink-behind _ _ s.queues (prefixes-apart w.pid), unlink-newest)
                      (gives (refl, refl)))
          ]
        ]
      ]
    ];
  }
