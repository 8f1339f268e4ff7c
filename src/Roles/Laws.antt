-- ===== src/Roles/Laws.antt =====
-- The exit statuses of the processes of src/ingest.cpp, src/compute.cpp and src/publish.cpp, and what
-- they leave behind.
use ratehub.Prelude.{
  sym, ap, ◌∙◌, subst, ◌&&◌, ℕ, ◌≡◌, ◌≢◌, ◌↔◌, refl, inl, inr, Bool, true, false, not, Bool-cases,
  Option, none, some, List, arith, if◌then◌else◌,
}
use ratehub.Prelude.Cuts.{drop_one_self}
use ratehub.Layout.{Snapshot, Layout, SourceState, WindowState}
use ratehub.Compute.{Memcpy}
use ratehub.Publish.{Round, have, publish_loop, write_out}
use ratehub.Shm.{
  ShmStatus, no_mapping, System, ShmWorld, has_header, map_fd, attached, attach_on,
  shm_open_existing, unmap, close_fd, shm_close,
}
use ratehub.Shm.Laws.{HoldsNoMore}
use ratehub.Roles.{ingest_attached, run_ingest, update, publish_attached, run_publish}

write_out_status :
    (opens : Bool) (last : Option Snapshot)
    → ((write_out opens last).0 ≡ (if have last && not opens then 1 else 0))
      × (((write_out opens last).1 ≢ none) ↔ ((have last ≡ true) × (opens ≡ true)))
unfolding write_out
write_out_status opens none = (refl, (λ h. absurd (h refl), λ h. absurd cc))
write_out_status true (some x) = (refl, (λ h. (refl, refl), λ h e. cc))
write_out_status false (some x) = (refl, (λ h. absurd (h refl), λ h. absurd cc))

-- Nothing more is held, and the names are as they were.
abbrev pub LeavesNothing : System → System → Type 0
LeavesNothing s s' = HoldsNoMore s s' × (s'.names ≡ s.names)

-- The fault flag of the object at the joins.
unfoldable pub joined_fault : (Layout → Layout) → (ℕ → Layout) → Option ℕ → ℕ
joined_fault threads object none = 0
joined_fault threads object (some id) = (threads (object id)).control.fault

module _ (m : Memcpy SourceState) (w : Memcpy WindowState) where
  ingest_on :
      (world : ShmWorld) (name : List ℕ) (fd id : Option ℕ) (threads : Layout → Layout) (s : System)
      → let at = attach_on m w world name fd id no_mapping s in
        let (rc, s') = ingest_attached threads at in
        LeavesNothing s s' × ((rc ≡ 0) ↔ (at.0 ≡ ShmStatus.ok))
  unfolding ingest_attached attach_on attached map_fd shm_close unmap close_fd update
  ingest_on world name none id threads s = (((refl, refl), refl), ground arith)
  ingest_on world name (some fd) none threads s = (((refl, refl), refl), ground arith)
  ingest_on world name (some fd) (some id) threads s = elim (Bool-cases world.maps) [
    | inr unmapped ↦ rw unmapped (((drop_one_self fd s.opened, refl), refl), ground arith)
    | inl mapped ↦ elim (Bool-cases (has_header m w (s.object id))) [
      | inl e ↦
          rw (mapped, e)
            (((drop_one_self fd s.opened, drop_one_self id s.mapped), refl), ground arith)
      | inr e ↦
          rw (mapped, e)
            (((drop_one_self fd s.opened, drop_one_self id s.mapped), refl), ground arith)
    ]
  ]

  -- The ingest process returns 0 exactly if it attaches, whatever its file holds, and it leaves no
  -- descriptor and no mapping behind, and no name changed.
  pub run_ingest_iff :
      (name : List ℕ) (world : ShmWorld) (threads : Layout → Layout) (s : System)
      → let attaches = (shm_open_existing m w world name no_mapping s).0 in
        let (rc, s') = run_ingest m w name world threads s in
        LeavesNothing s s' × ((rc ≡ 0) ↔ (attaches ≡ ShmStatus.ok))
  unfolding run_ingest shm_open_existing
  run_ingest_iff name world threads s = ingest_on world name world.opens (s.names name) threads s

  publish_on :
      (world : ShmWorld) (name : List ℕ) (fd id : Option ℕ) (rounds : List Round) (opens : Bool)
      (s : System)
      → let at = attach_on m w world name fd id no_mapping s in
        let (ended, rc, file, s') = publish_attached rounds opens at in
        let (_, p) = publish_loop rounds (record { last = none; beats = 0 }) in
        LeavesNothing s s'
        × (at.0 ≢ ShmStatus.ok → (rc ≡ 1) × (file ≡ none))
        × (at.0 ≡ ShmStatus.ok → (rc, file) ≡ write_out opens p.last)
  unfolding publish_attached attach_on attached map_fd shm_close unmap close_fd
  publish_on world name none id rounds opens s =
      (((refl, refl), refl), λ h. (refl, refl), λ h. absurd cc)
  publish_on world name (some fd) none rounds opens s =
      (((refl, refl), refl), λ h. (refl, refl), λ h. absurd cc)
  publish_on world name (some fd) (some id) rounds opens s = elim (Bool-cases world.maps) [
    | inr unmapped ↦
        rw unmapped (((drop_one_self fd s.opened, refl), refl), λ h. (refl, refl), λ h. absurd cc)
    | inl mapped ↦ elim (Bool-cases (has_header m w (s.object id))) [
      | inl e ↦
          rw (mapped, e)
            (
              ((drop_one_self fd s.opened, drop_one_self id s.mapped), refl),
              λ h. absurd (h refl),
              λ h. refl,
            )
      | inr e ↦
          rw (mapped, e)
            (
              ((drop_one_self fd s.opened, drop_one_self id s.mapped), refl),
              λ h. (refl, refl),
              λ h. absurd cc,
            )
    ]
  ]

  -- The publish process leaves no descriptor and no mapping behind, and no name changed. It returns 1 and
  -- writes nothing if it cannot attach; otherwise it returns 0 exactly if it has no snapshot at the end
  -- of its loop or the file opens, and it writes exactly if it has a snapshot and the file opens.
  pub run_publish_status :
      (name : List ℕ) (world : ShmWorld) (rounds : List Round) (opens : Bool) (s : System)
      → let attaches = (shm_open_existing m w world name no_mapping s).0 in
        let (ended, rc, file, s') = run_publish m w name world rounds opens s in
        let (_, p) = publish_loop rounds (record { last = none; beats = 0 }) in
        LeavesNothing s s'
        × (attaches ≢ ShmStatus.ok → (rc ≡ 1) × (file ≡ none))
        × (attaches ≡ ShmStatus.ok
            → (rc ≡ (if have p.last && not opens then 1 else 0))
              × ((file ≢ none) ↔ ((have p.last ≡ true) × (opens ≡ true))))
  unfolding run_publish shm_open_existing
  run_publish_status name world rounds opens s =
      let (left, bad, good) = publish_on world name world.opens (s.names name) rounds opens s in
      let p = (publish_loop rounds (record { last = none; beats = 0 })).1 in
      let (status, written) = write_out_status opens p.last in
      (
        left,
        bad,
        λ h.
            let same = good h in
            (
              ap (λ t. t.0) same ∙ status,
              subst (λ file. (file ≢ none) ↔ ((have p.last ≡ true) × (opens ≡ true)))
                  (sym (ap (λ t. t.1) same)) written,
            ),
      )
