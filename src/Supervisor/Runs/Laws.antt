-- ===== src/Supervisor/Runs/Laws.antt =====
-- What a run of src/supervisor.cpp without an observer returns and leaves.
use ratehub.Prelude.{
  ℕ, ◌≡◌, ◌↔◌, refl, inl, inr, Bool, true, Bool-cases, Option, none, some, List, ◌∷◌, arith,
  ==_refl,
}
use ratehub.Prelude.Cuts.{drop_one_self}
use ratehub.Prelude.Text.{bytes_eq_refl}
use ratehub.Layout.{Layout, SourceState, WindowState}
use ratehub.Compute.{Memcpy}
use ratehub.Shm.{
  ShmStatus, no_mapping, System, ShmWorld, shm_unlink, new_layout, map_fd, created, create_on,
  shm_create, unmap, close_fd, shm_close,
}
use ratehub.Shm.Laws.{HoldsNoMore}
use ratehub.Supervisor.{run_once_pipeline}
use ratehub.Supervisor.Runs.{
  Run, ObserverChild, run_loop, start_observe, stop_observe, supervise, store_object, object_of,
  supervise_mapped, object_name, run_supervisor,
}

supervise-plain :
    (child : ObserverChild) (pacing : Bool) (run : Run) (runs : List Run) (layout : Layout)
    → let (status, ended) = run_once_pipeline run.children layout in
      let result = supervise child 0 pacing (run ∷ runs) layout in
      (result.0 ≡ true) × ((result.1 ≡ 0) ↔ (status ≡ 0))
unfolding supervise start_observe stop_observe run_loop
supervise-plain child pacing run runs layout = (refl, ground arith)

module _ (m : Memcpy SourceState) (w : Memcpy WindowState) where
  create_on-supervised :
      (world : ShmWorld) (pid : ℕ) (fd : Option ℕ) (child : ObserverChild) (pacing : Bool)
      (run : Run) (runs : List Run) (s : System)
      → s.names (object_name pid) ≡ none
      → let result = create_on m w world (object_name pid) fd no_mapping s in
        let (ended, rc, s') =
          supervise_mapped child 0 pacing (run ∷ runs) (new_layout m w) result in
        (ended ≡ true)
        × ((rc ≡ 0) ↔ (
            (result.0 ≡ ShmStatus.ok) × ((run_once_pipeline run.children (new_layout m w)).0 ≡ 0)))
        × HoldsNoMore s s'
        × (s'.names (object_name pid) ≡ none)
  unfolding supervise_mapped create_on created map_fd shm_close unmap close_fd store_object
      object_of
  create_on-supervised world pid none child pacing run runs s unlinked =
      (refl, ground arith, (refl, refl), unlinked)
  create_on-supervised world pid (some fd) child pacing run runs s unlinked =
      let name = object_name pid in
      elim (Bool-cases world.truncates) [
        | inr small ↦
            rw (small, bytes_eq_refl name)
              (refl, ground arith, (drop_one_self fd s.opened, refl), refl)
        | inl sized ↦ elim (Bool-cases world.maps) [
          | inr unmapped ↦
              rw (sized, unmapped, bytes_eq_refl name)
                (refl, ground arith, (drop_one_self fd s.opened, refl), refl)
          | inl mapped ↦
              let (ended, told) = supervise-plain child pacing run runs (new_layout m w) in
              rw (sized, mapped, ==_refl world.new_object, bytes_eq_refl name)
                (
                  ended,
                  ground (arith, told),
                  (drop_one_self fd s.opened, drop_one_self world.new_object s.mapped),
                  refl,
                )
        ]
      ]

  -- A supervisor that starts no observer ends after its first run of the pipeline. It returns 0 exactly
  -- if the mapping could be created and that run, on a new layout, ended well; and whatever the system
  -- calls return it leaves no descriptor, no mapping and no shared object of its name behind.
  pub run_supervisor_iff :
      (world : ShmWorld) (pid : ℕ) (child : ObserverChild) (pacing : Bool) (run : Run)
      (runs : List Run) (s : System)
      → let (ended, rc, s') = run_supervisor m w world pid child 0 pacing (run ∷ runs) s in
        (ended ≡ true)
        × ((rc ≡ 0) ↔ (
            ((shm_create m w world (object_name pid) no_mapping s).0 ≡ ShmStatus.ok)
            × ((run_once_pipeline run.children (new_layout m w)).0 ≡ 0)))
        × HoldsNoMore s s'
        × (s'.names (object_name pid) ≡ none)
  unfolding run_supervisor shm_create
  run_supervisor_iff world pid child pacing run runs s =
      create_on-supervised world pid world.opens child pacing run runs
        (shm_unlink (object_name pid) s) (rw (bytes_eq_refl (object_name pid)) refl)
