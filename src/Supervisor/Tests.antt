-- ===== src/Supervisor/Tests.antt =====
-- Runs of src/supervisor.cpp with concrete children.
use ratehub.Prelude.{
  ℕ, zero, suc, ◌+◌, ◌≤◌, ◌≡◌, ◌≢◌, ◌↔◌, refl, inl, inr, true, false, none, some, Bool-cases, [],
  ◌∷◌, ◌==◌, if◌then◌else◌, arith,
}
use ratehub.Prelude.Int.{pos}
use ratehub.Prelude.Words.{u32}
use ratehub.Layout.{Layout, new_control, new_supervisor}
use ratehub.Supervisor.{
  Role, WaitStatus, Children, exit_status, wait_child, run_compute, run_attempts, start_pipeline,
  stop_pipeline, run_once_pipeline,
}
use ratehub.Supervisor.Status.{KeptBy, run_once_pipeline_iff, run_once_pipeline-restarts}
use ratehub.Supervisor.Restart.{Computes, compute_child, FaultsFrom, Faults, faulted_run_fails}
use ratehub.Compute.{exit_code}
use ratehub.Compute.Copies.{source_memcpy, window_memcpy}
use ratehub.Compute.Watch.{crash_requested}
use ratehub.Prelude.Text.{codes}
use ratehub.Shm.{
  new_layout, map_fd, attached, attach_on, shm_open_existing, unmap, close_fd, shm_close,
}
use ratehub.Roles as Roles
use ratehub.Roles.{update, mapped_exit, compute_attached}

-- A small mapping; these runs do not look at its tables.
abbrev mapping : Layout
mapping = record {
  control = new_control;
  supervisor = new_supervisor;
  ring = record { slots = []; write = 0; read = 0 };
  latest = [];
  window = [];
  snapshots = record { slots = []; write = 0; read = 1; middle = 2 };
}

-- The first compute process dies of a signal, and the second one does well.
abbrev crash_once : Role → ℕ → Layout → WaitStatus × Layout
crash_once Role.compute (suc zero) l = (WaitStatus.signaled, l)
crash_once Role.compute zero l = (WaitStatus.exited 0, l)
crash_once Role.compute (suc (suc n)) l = (WaitStatus.exited 0, l)
crash_once Role.ingest n l = (WaitStatus.exited 0, l)
crash_once Role.publish n l = (WaitStatus.exited 0, l)

abbrev crashing : Children
crashing = record { spawned = λ r n. pos 700; waited = crash_once }

crash_once-kept : (r : Role) (n : ℕ) (l : Layout) → (crash_once r n l).1 ≡ l
crash_once-kept Role.compute zero l = refl
crash_once-kept Role.compute (suc zero) l = refl
crash_once-kept Role.compute (suc (suc n)) l = refl
crash_once-kept Role.ingest n l = refl
crash_once-kept Role.publish n l = refl

crashing-KeptBy : KeptBy crashing
crashing-KeptBy = record {
  compute_exit = λ r n l. rw (crash_once-kept r n l) refl;
  ingest_exit = λ r n l. rw (crash_once-kept r n l) refl;
  generation = λ r n l. rw (crash_once-kept r n l) refl;
  shutdown = λ r n l. rw (crash_once-kept r n l) refl;
}

recovers : (run_once_pipeline crashing mapping).0 ≡ 0
unfolding run_once_pipeline run_attempts run_compute start_pipeline stop_pipeline wait_child
    exit_status
recovers = refl

run_once_pipeline_iff_example : ((run_once_pipeline crashing mapping).0 ≡ 0) ↔ (
    ((run_once_pipeline crashing mapping).1.supervisor.compute_exit ≡ 0)
    × ((run_once_pipeline crashing mapping).1.supervisor.ingest_exit ≡ 0)
    × ((run_once_pipeline crashing mapping).1.supervisor.publish_exit ≡ 0))
run_once_pipeline_iff_example = run_once_pipeline_iff crashing crashing-KeptBy mapping

run_once_pipeline-restarts_example :
    ((run_once_pipeline crashing mapping).1.control.shutdown ≡ 1)
    × ((r : ℕ) × (r ≤ 2)
        × (u32 (run_once_pipeline crashing mapping).1.control.generation ≡ u32 (1 + r)))
run_once_pipeline-restarts_example = run_once_pipeline-restarts crashing crashing-KeptBy mapping

-- The watchdog of the first attempt stores the fault, and the threads of the later ones do nothing.
abbrev watched : ℕ → Layout → Layout
watched n l = if n == 1 then record l { control = record l.control { fault = 1 } } else l

abbrev computes : Computes
computes = record {
  source_copy = source_memcpy;
  window_copy = window_memcpy;
  name = codes "/rh-1";
  crash = λ n. none;
  writable = λ n. true;
  files = λ n. [];
  world = λ n. record { opens = some 4; new_object = 0; truncates = false; maps = true };
  threads = watched;
  system = record {
    opened = 0 ∷ [];
    mapped = [];
    names = λ name. some 9;
    object = λ id. new_layout source_memcpy window_memcpy;
  };
  id = 9;
  reaches = refl;
}

abbrev waited_of : Role → ℕ → Layout → WaitStatus × Layout
waited_of Role.compute n l = compute_child computes n l
waited_of Role.ingest n l = (WaitStatus.exited 0, l)
waited_of Role.publish n l = (WaitStatus.exited 0, l)

abbrev watched_children : Children
watched_children = record { spawned = λ r n. pos 700; waited = waited_of }

watched-keeps : (n : ℕ) (l : Layout) → l.control.fault ≢ 0 → (watched n l).control.fault ≢ 0
watched-keeps n l h = elim (Bool-cases (n == 1)) [
  | inl e ↦ rw e (λ z. absurd (omega arith))
  | inr e ↦ rw e h
]

first-Faults : Faults watched_children (new_layout source_memcpy window_memcpy)
unfolding FaultsFrom start_pipeline run_compute wait_child exit_status Roles.run_compute
    compute_attached update mapped_exit exit_code crash_requested shm_open_existing attach_on
    attached map_fd shm_close unmap close_fd
first-Faults = ((λ z. absurd (omega arith)), inl (λ z. absurd (omega arith)))

faulted_run_fails_example :
    (run_once_pipeline watched_children (new_layout source_memcpy window_memcpy)).0 ≡ 1
faulted_run_fails_example =
    faulted_run_fails watched_children computes watched-keeps (λ n l. refl)
      (new_layout source_memcpy window_memcpy) first-Faults
