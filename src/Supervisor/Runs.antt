-- ===== src/Supervisor/Runs.antt =====
-- `run_supervisor` of src/supervisor.cpp: the mapping, the observer, the runs of the pipeline one after
-- the other, and the wait for a request between them. What the system reports is data: the children of
-- each run, and the polls of the wait after it.
pub mod Laws
pub mod Loop
pub mod Ends
mod Tests
use ratehub.Prelude.{
  ℕ, zero, suc, Bool, true, false, not, ◌||◌, Option, none, some, List, [], ◌∷◌, ◌++◌, ◌==◌,
  if◌then◌else◌,
}
use ratehub.Prelude.Int.{ℤ, pos, negsuc, ltb_ℤ}
use ratehub.Prelude.Text.{codes, decimal}
use ratehub.Layout.{Layout, SourceState, WindowState, take_rerun}
use ratehub.Compute.{Memcpy}
use ratehub.Shm.{
  ShmStatus, ShmMapping, no_mapping, System, ShmWorld, new_layout, shm_create, shm_close,
}
use ratehub.Supervisor.{
  WaitStatus, Children, store_pid, exit_status, reset_control, run_once_pipeline,
}

-- One round of the wait: whether a signal has come, and the layout as the others have left it.
pub record Poll : Type 0 where
  pub stopped : Bool
  pub layout : Layout → Layout

pub record Run : Type 0 where
  pub children : Children
  pub polls : List Poll

-- The observer's process: what its spawn and its wait report.
pub record ObserverChild : Type 0 where
  pub spawned : ℤ
  pub waited : Layout → WaitStatus × Layout

-- How the wait ends: for another run, by a signal, or not within the polls.
pub data Held : Type 0 where
  rerun stop waiting : Held

unfoldable pub hold : List Poll → Layout → Held × Layout
hold [] layout = (Held.waiting, layout)
hold (p ∷ polls) layout =
    let seen = p.layout layout in
    let (asked, supervisor) = take_rerun seen.supervisor in
    let taken = record seen { supervisor = supervisor } in
    let rest = hold polls taken in
    if p.stopped then (Held.stop, seen) else if asked then (Held.rerun, taken) else rest

-- After a run: whether the loop has ended, the last status, and the layout. `again` is the rest of the
-- loop.
unfoldable pub after_run : (Layout → Bool × ℕ × Layout) → ℕ → Held × Layout → Bool × ℕ × Layout
after_run again status (Held.rerun, layout) = again layout
after_run again status (Held.stop, layout) = (true, status, layout)
after_run again status (Held.waiting, layout) = (false, status, layout)

-- The loop, whose first run is `first`; `holds` is false when there is no observer or no pacing.
unfoldable pub run_loop : Bool → List Run → Bool → Layout → Bool × ℕ × Layout
run_loop holds [] first layout = (false, 1, layout)
run_loop holds (run ∷ runs) first layout =
    let start = if first then layout else reset_control layout in
    let (status, ended) = run_once_pipeline run.children start in
    let next = after_run (run_loop holds runs false) status (hold run.polls ended) in
    if holds then next else (true, status, ended)

-- The spawn of the observer, and its process id, which is negative without one.
unfoldable pub start_observe : ObserverChild → ℕ → Layout → ℤ × Layout
start_observe child port layout =
    let observed = record layout {
      supervisor = record layout.supervisor {
        observe_pid = store_pid layout.supervisor.observe_pid child.spawned;
      };
    } in
    if port == 0 then (negsuc 0, layout) else (child.spawned, observed)

-- The release of the observer and the wait for it: its status, and the layout.
unfoldable pub stop_observe : ObserverChild → ℤ → Layout → ℕ × Layout
stop_observe child (negsuc n) layout = (0, layout)
stop_observe child (pos n) layout =
    let (status, layout') =
      child.waited
        (record layout { supervisor = record layout.supervisor { observe_release = 1 } }) in
    (exit_status status, layout')

-- From the new mapping on: whether the loop has ended, the status, and the layout.
unfoldable pub supervise : ObserverChild → ℕ → Bool → List Run → Layout → Bool × ℕ × Layout
supervise child port pacing runs layout =
    let (observe, started) = start_observe child port layout in
    let holds = if ltb_ℤ observe (pos 0) then false else pacing in
    let (ended, last_status, stopped) = run_loop holds runs true started in
    let (observe_status, left) = stop_observe child observe stopped in
    let rc = if not (last_status == 0) || not (observe_status == 0) then 1 else 0 in
    (ended, rc, left)

unfoldable pub store_object : Option ℕ → Layout → System → System
store_object none layout s = s
store_object (some id) layout s = record s { object = λ n. if n == id then layout else s.object n }

unfoldable pub object_of : Option ℕ → Layout → System → Layout
object_of none blank s = blank
object_of (some id) blank s = s.object id

unfoldable pub supervise_mapped :
    ObserverChild
    → ℕ
    → Bool
    → List Run
    → Layout
    → ShmStatus × ShmMapping × System
    → Bool × ℕ × System
unfolding store_object
supervise_mapped child port pacing runs blank (ShmStatus.io_error, mapping, s) = (true, 1, s)
supervise_mapped child port pacing runs blank (ShmStatus.schema_mismatch, mapping, s) = (true, 1, s)
supervise_mapped child port pacing runs blank (ShmStatus.ok, mapping, s) =
    let (ended, rc, left) = supervise child port pacing runs (object_of mapping.layout blank s) in
    (ended, rc, (shm_close mapping (store_object mapping.layout left s)).1)

-- The name of the shared object, by the supervisor's process id.
abbrev pub object_name : ℕ → List ℕ
object_name pid = codes "/rh-" ++ decimal pid

-- Whether it has ended, the exit status, and the system. `port` is 0 when no observer is asked for.
unfoldable pub run_supervisor :
    Memcpy SourceState
    → Memcpy WindowState
    → ShmWorld
    → ℕ
    → ObserverChild
    → ℕ
    → Bool
    → List Run
    → System
    → Bool × ℕ × System
run_supervisor m w world pid child port pacing runs s =
    supervise_mapped child port pacing runs (new_layout m w)
      (shm_create m w world (object_name pid) no_mapping s)
