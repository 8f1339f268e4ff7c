-- ===== src/Supervisor/Runs/Tests.antt =====
-- Supervisors of src/supervisor.cpp whose children all end well, without an observer and with one.
use ratehub.Prelude.{refl, false, ◌++◌, ◌≡◌, ◌↔◌, true, none, some, [], ◌∷◌}
use ratehub.Prelude.Int.{pos}
use ratehub.Compute.Copies.{source_memcpy, window_memcpy}
use ratehub.Shm.{ShmStatus, no_mapping, System, ShmWorld, new_layout, shm_create}
use ratehub.Shm.Laws.{HoldsNoMore}
use ratehub.Supervisor.{WaitStatus, Children, run_once_pipeline}
use ratehub.Supervisor.Runs.Loop.{stops, all_stop}
use ratehub.Supervisor.Runs.Ends.{EndedWell, run_supervisor-ends}
use ratehub.Supervisor.Runs.{Poll, Run, ObserverChild, object_name, run_supervisor}
use ratehub.Supervisor.Runs.Laws.{run_supervisor_iff}

abbrev well : Children
well = record { spawned = λ r n. pos 700; waited = λ r n l. (WaitStatus.exited 0, l) }

abbrev run : Run
run = record { children = well; polls = [] }

abbrev child : ObserverChild
child = record { spawned = pos 701; waited = λ l. (WaitStatus.exited 0, l) }

abbrev system : System
system = record {
  opened = 0 ∷ [];
  mapped = [];
  names = λ n. none;
  object = λ id. new_layout source_memcpy window_memcpy;
}

abbrev world : ShmWorld
world = record { opens = some 3; new_object = 9; truncates = true; maps = true }

run_supervisor_iff_example :
    let (ended, rc, s') =
      run_supervisor source_memcpy window_memcpy world 42 child 0 true (run ∷ []) system in
    (ended ≡ true)
    × ((rc ≡ 0) ↔ (
        ((shm_create source_memcpy window_memcpy world (object_name 42) no_mapping system).0
          ≡ ShmStatus.ok)
        × ((run_once_pipeline well (new_layout source_memcpy window_memcpy)).0 ≡ 0)))
    × HoldsNoMore system s'
    × (s'.names (object_name 42) ≡ none)
run_supervisor_iff_example =
    run_supervisor_iff source_memcpy window_memcpy world 42 child true run [] system

-- After the first run the observer asks for another one, and after the second one a signal comes.
abbrev asked : Run
asked = record {
  children = well;
  polls =
      record {
        stopped = false;
        layout = λ l. record l { supervisor = record l.supervisor { rerun_request = 1 } };
      }
      ∷ record { stopped = true; layout = λ l. l }
      ∷ [];
}

abbrev signal : Poll
signal = record { stopped = true; layout = λ l. l }

abbrev stopped : Run
stopped = record { children = well; polls = signal ∷ [] }

asked_stops : all_stop (asked ∷ []) ≡ true
unfolding all_stop stops
asked_stops = refl

run_supervisor-ends_example :
    let (ended, rc, s') =
      run_supervisor source_memcpy window_memcpy world 42 child 8080 true
        ((asked ∷ []) ++ (stopped ∷ []))
        system in
    (ended ≡ true)
    × (rc ≡ 0
        → ((shm_create source_memcpy window_memcpy world (object_name 42) no_mapping system).0
            ≡ ShmStatus.ok)
          × EndedWell child 8080 true
              ((asked ∷ []) ++ (stopped ∷ []))
              (new_layout source_memcpy window_memcpy))
    × HoldsNoMore system s'
    × (s'.names (object_name 42) ≡ none)
run_supervisor-ends_example =
    run_supervisor-ends source_memcpy window_memcpy world 42 child 8080 true (asked ∷ []) [] stopped
      signal [] system asked_stops refl refl
