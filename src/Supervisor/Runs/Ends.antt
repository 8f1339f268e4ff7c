-- ===== src/Supervisor/Runs/Ends.antt =====
-- How `run_supervisor` of src/supervisor.cpp ends, with an observer or without one.
use ratehub.Prelude.{
  ==_iff, sym, ◌∙◌, ℕ, ◌≡◌, refl, inl, inr, Bool, true, false, not, ◌||◌, Bool-cases, Option, none,
  some, List, ◌∷◌, ◌++◌, arith, ==_refl, ◌==◌, if◌then◌else◌,
}
use ratehub.Prelude.Int.{pos, ltb_ℤ}
use ratehub.Prelude.Cuts.{drop_one_self}
use ratehub.Prelude.Text.{bytes_eq_refl}
use ratehub.Layout.{Layout, SourceState, WindowState}
use ratehub.Compute.{Memcpy}
use ratehub.Shm.{
  ShmStatus, no_mapping, System, ShmWorld, shm_unlink, new_layout, map_fd, created, create_on,
  shm_create, unmap, close_fd, shm_close,
}
use ratehub.Shm.Laws.{HoldsNoMore}
use ratehub.Supervisor.{run_once_pipeline}
use ratehub.Supervisor.Runs.{
  Poll, Run, ObserverChild, run_loop, start_observe, stop_observe, supervise, store_object,
  object_of, supervise_mapped, object_name, run_supervisor,
}
use ratehub.Supervisor.Runs.Loop.{all_stop, LastRun, layout_at, Ends, run_loop-Ends}

-- Whether the supervisor waits for a request after a run, and the layout that its first run starts on.
abbrev pub begins : ObserverChild → ℕ → Bool → Layout → Bool × Layout
begins child port pacing layout =
    let (observe, started) = start_observe child port layout in
    (if ltb_ℤ observe (pos 0) then false else pacing, started)

-- The last run that the supervisor makes, on the layout that it starts on, ends well.
abbrev pub EndedWell : ObserverChild → ℕ → Bool → List Run → Layout → Type 0
EndedWell child port pacing runs layout =
    let (holds, started) = begins child port pacing layout in
    (run : Run) × (at : Layout) × LastRun holds runs started run at
    × ((run_once_pipeline run.children at).0 ≡ 0)

-- What is shown of the loop, with an observer or without one, from any layout.
abbrev AlwaysEnds : List Run → Type 0
AlwaysEnds runs =
    (holds first : Bool) (l : Layout)
    → Ends holds runs (layout_at first l) (run_loop holds runs first l)

-- From the mapping on: the status is 0 only if the last run ended well.
supervise-Ends :
    (child : ObserverChild) (port : ℕ) (pacing : Bool) (runs : List Run) (layout : Layout)
    → AlwaysEnds runs
    → let result = supervise child port pacing runs layout in
      (result.0 ≡ true) × (result.1 ≡ 0 → EndedWell child port pacing runs layout)
unfolding supervise
supervise-Ends child port pacing runs layout h =
    let (observe, started) = start_observe child port layout in
    let holds = if ltb_ℤ observe (pos 0) then false else pacing in
    let (ended, run, at, last, status) = h holds true started in
    let looped = run_loop holds runs true started in
    let left = stop_observe child observe looped.2 in
    (
      ended,
      λ z. elim (Bool-cases (looped.1 == 0)) [
        | inl e ↦ (run, at, last, sym status ∙ (==_iff looped.1 0).0 e)
        | inr e ↦
            let no : ◌≡◌ {A = ℕ} (if not (looped.1 == 0) || not (left.0 == 0) then 1 else 0) 1 =
              rw e refl in
            absurd (omega (arith, no, z))
      ],
    )

module _ (m : Memcpy SourceState) (w : Memcpy WindowState) where
  create_on-observed :
      (world : ShmWorld) (pid : ℕ) (fd : Option ℕ) (child : ObserverChild) (port : ℕ)
      (pacing : Bool) (runs : List Run) (s : System)
      → s.names (object_name pid) ≡ none
      → AlwaysEnds runs
      → let result = create_on m w world (object_name pid) fd no_mapping s in
        let (ended, rc, s') = supervise_mapped child port pacing runs (new_layout m w) result in
        (ended ≡ true)
        × (rc ≡ 0 → (result.0 ≡ ShmStatus.ok) × EndedWell child port pacing runs (new_layout m w))
        × HoldsNoMore s s'
        × (s'.names (object_name pid) ≡ none)
  unfolding supervise_mapped create_on created map_fd shm_close unmap close_fd store_object
      object_of
  create_on-observed world pid none child port pacing runs s unlinked h =
      (refl, λ z. absurd (omega arith), (refl, refl), unlinked)
  create_on-observed world pid (some fd) child port pacing runs s unlinked h =
      let name = object_name pid in
      elim (Bool-cases world.truncates) [
        | inr small ↦
            rw (small, bytes_eq_refl name)
              (refl, λ z. absurd (omega arith), (drop_one_self fd s.opened, refl), refl)
        | inl sized ↦ elim (Bool-cases world.maps) [
          | inr unmapped ↦
              rw (sized, unmapped, bytes_eq_refl name)
                (refl, λ z. absurd (omega arith), (drop_one_self fd s.opened, refl), refl)
          | inl mapped ↦
              let (ended, good) = supervise-Ends child port pacing runs (new_layout m w) h in
              rw (sized, mapped, ==_refl world.new_object, bytes_eq_refl name)
                (
                  ended,
                  λ z. (refl, good z),
                  (drop_one_self fd s.opened, drop_one_self world.new_object s.mapped),
                  refl,
                )
        ]
      ]

  -- With an observer or without one: if a signal comes within the polls of the wait after each of some
  -- runs, and at the first poll after the next run, the supervisor has ended by then, whatever reruns the
  -- observer asks for meanwhile. It then returns 0 only if the mapping could be created and the last run
  -- that it made, on the layout that this run started on, ended well; and it leaves no descriptor, no mapping and no shared object of its name behind.
  pub run_supervisor-ends :
      (world : ShmWorld) (pid : ℕ) (child : ObserverChild) (port : ℕ) (pacing : Bool)
      (before after : List Run) (last : Run) (p : Poll) (polls : List Poll) (s : System)
      → all_stop before ≡ true
      → last.polls ≡ p ∷ polls
      → p.stopped ≡ true
      → let runs = before ++ (last ∷ after) in
        let (ended, rc, s') = run_supervisor m w world pid child port pacing runs s in
        (ended ≡ true)
        × (rc ≡ 0
            → ((shm_create m w world (object_name pid) no_mapping s).0 ≡ ShmStatus.ok)
              × EndedWell child port pacing runs (new_layout m w))
        × HoldsNoMore s s'
        × (s'.names (object_name pid) ≡ none)
  unfolding run_supervisor shm_create
  run_supervisor-ends world pid child port pacing before after last p polls s h same stopped =
      create_on-observed world pid world.opens child port pacing (before ++ (last ∷ after))
        (shm_unlink (object_name pid) s) (rw (bytes_eq_refl (object_name pid)) refl)
        (λ holds first l. run_loop-Ends before last after p polls holds first l h same stopped)
