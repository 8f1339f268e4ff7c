-- ===== src/Roles/Fault.antt =====
-- The compute process of src/compute.cpp on a layout whose fault flag is set.
use ratehub.Prelude.{
  ℕ, ◌<◌, ◌≡◌, ◌≢◌, sym, subst, inl, inr, Bool, Bool-cases, Option, none, some, List, arith,
  ==_refl,
}
use ratehub.Layout.{Layout, SourceState, WindowState}
use ratehub.Compute.{Memcpy, exit_code}
use ratehub.Compute.Watch.{crash_requested}
use ratehub.Shm.{
  no_mapping, System, ShmWorld, has_header, map_fd, attached, attach_on, shm_open_existing, unmap,
  close_fd, shm_close,
}
use ratehub.Roles.{update, mapped_exit, compute_attached, run_compute}

-- The status is 1, 2 or 3, and the flag of the object stays set.
abbrev pub Fails : ℕ → ℕ → System → Type 0
Fails id rc s = (0 < rc) × (rc < 4) × ((s.object id).control.fault ≢ 0)

module _ (m : Memcpy SourceState) (w : Memcpy WindowState) (threads : Layout → Layout) (id : ℕ)
    (s : System) (before : (s.object id).control.fault ≢ 0)
    (joined : (threads (s.object id)).control.fault ≢ 0) where
  compute_on-fault :
      (world : ShmWorld) (name : List ℕ) (fd : Option ℕ)
      → let (rc, s') =
          compute_attached threads (attach_on m w world name fd (some id) no_mapping s) in
        Fails id rc s'
  unfolding compute_attached attach_on attached map_fd shm_close unmap close_fd update mapped_exit
      exit_code
  compute_on-fault world name none = (omega arith, omega arith, before)
  compute_on-fault world name (some fd) = elim (Bool-cases world.maps) [
    | inr unmapped ↦ rw unmapped (omega arith, omega arith, before)
    | inl mapped ↦ elim (Bool-cases (has_header m w (s.object id))) [
      | inl e ↦ rw (mapped, e, ==_refl id) (ground arith, ground arith, joined)
      | inr e ↦ rw (mapped, e) (omega arith, omega arith, before)
    ]
  ]

  pub run_compute-fault :
      (name : List ℕ) (crash : Option (List ℕ)) (writable : Bool) (files : List (List ℕ))
      (world : ShmWorld)
      → s.names name ≡ some id
      → let (rc, files', s') = run_compute m w name crash writable files world threads s in
        Fails id rc s'
  unfolding run_compute shm_open_existing
  run_compute-fault name crash writable files world e =
      let attached =
        subst
          (λ o.
            let (rc, s') =
              compute_attached threads (attach_on m w world name world.opens o no_mapping s) in
            Fails id rc s')
          (sym e) (compute_on-fault world name world.opens) in
      elim (Bool-cases (crash_requested crash writable name files).0) [
        | inl crashes ↦ rw crashes (omega arith, omega arith, before)
        | inr runs ↦ rw runs attached
      ]
