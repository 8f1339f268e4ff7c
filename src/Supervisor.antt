-- ===== src/Supervisor.antt =====
-- src/supervisor.cpp: the processes that the supervisor starts, its restarts of the compute process,
-- and the exit status of one run. The children are processes of the operating system: `Children` says
-- what `posix_spawn` and `waitpid` report of them, and what they do to the shared layout meanwhile.

pub mod Status
pub mod Restart
pub mod Runs
mod Tests
use ratehub.Prelude.{ℕ, zero, suc, ◌+◌, ◌%◌, ◌^◌, Bool, true, false, not, ◌||◌, ◌==◌, if◌then◌else◌}
use ratehub.Prelude.Int.{ℤ, pos, negsuc}
use ratehub.Prelude.Words.{u32}
use ratehub.Layout.{Layout, ShmControl, SupervisorState}

pub data Role : Type 0 where
  ingest publish compute : Role

-- What `waitpid` reports: an error, an exit with its code, or another end, by a signal.
pub data WaitStatus : Type 0 where
  failed : WaitStatus
  exited : ℕ → WaitStatus
  signaled : WaitStatus

-- `spawned` is the process id, or -1; `waited` is what the wait reports, and the layout as all the
-- processes have left it by then. The number is that of the attempt.
pub record Children : Type 0 where
  pub spawned : Role → ℕ → ℤ
  pub waited : Role → ℕ → Layout → WaitStatus × Layout

abbrev pub max_compute_attempts : ℕ
max_compute_attempts = 3

-- The slot's value after `store_pid`.
unfoldable pub store_pid : ℕ → ℤ → ℕ
store_pid slot (pos zero) = slot
store_pid slot (pos (suc n)) = u32 (suc n)
store_pid slot (negsuc n) = slot

-- `WEXITSTATUS` is the low byte of the code.
unfoldable pub exit_status : WaitStatus → ℕ
exit_status WaitStatus.failed = 1
exit_status (WaitStatus.exited code) = code % 2 ^ 8
exit_status WaitStatus.signaled = 1

unfoldable pub wait_child : Children → Role → ℕ → ℤ → Layout → ℕ × Layout
unfolding exit_status
wait_child children role attempt (negsuc n) layout = (1, layout)
wait_child children role attempt (pos n) layout =
    let (status, layout') = children.waited role attempt layout in (exit_status status, layout')

unfoldable pub reset_control : Layout → Layout
reset_control layout = record layout {
  control = record layout.control {
    shutdown = 0;
    ingest_done = 0;
    fast_done = 0;
    window_done = 0;
    snapshot_done = 0;
    compute_done = 0;
    fault = 0;
    overrun_fast = 0;
    overrun_window = 0;
    overrun_snapshot = 0;
    heartbeat_ingest = 0;
    heartbeat_compute = 0;
    heartbeat_publish = 0;
    heartbeat_fast = 0;
    heartbeat_window = 0;
    heartbeat_snapshot = 0;
    generation = u32 (layout.control.generation + 1);
  };
  supervisor = record layout.supervisor {
    ingest_pid = 0;
    compute_pid = 0;
    publish_pid = 0;
    ingest_exit = 0;
    compute_exit = 0;
    publish_exit = 0;
  };
}

-- One round of the loop over the attempts: spawn, wait, and record the status.
unfoldable pub run_compute : Children → ℕ → Layout → ℕ × Layout
run_compute children attempt layout =
    let compute = children.spawned Role.compute attempt in
    let started = record layout {
      supervisor = record layout.supervisor {
        compute_pid = store_pid layout.supervisor.compute_pid compute;
      };
    } in
    let (compute_status, ended) = wait_child children Role.compute attempt compute started in
    (
      compute_status,
      record ended { supervisor = record ended.supervisor { compute_exit = u32 compute_status } },
    )

abbrev pub next_generation : Layout → Layout
next_generation layout = record layout {
  control = record layout.control { generation = u32 (layout.control.generation + 1) };
}

-- The loop over the attempts, with `left` of them left: `compute_ok`, and the layout.
unfoldable pub run_attempts : Children → ℕ → ℕ → Layout → Bool × Layout
unfolding run_compute
run_attempts children zero attempt layout = (false, layout)
run_attempts children (suc left) attempt layout =
    let (compute_status, ended) = run_compute children attempt layout in
    let rest = run_attempts children left (suc attempt) (next_generation ended) in
    if compute_status == 0 then (true, ended) else if left == 0 then (false, ended) else rest

-- The spawns of the two other processes.
unfoldable pub start_pipeline : Children → Layout → Layout
start_pipeline children layout = record layout {
  supervisor = record layout.supervisor {
    ingest_pid = store_pid layout.supervisor.ingest_pid (children.spawned Role.ingest 1);
    publish_pid = store_pid layout.supervisor.publish_pid (children.spawned Role.publish 1);
  };
}

-- From the store of `shutdown` on: the status of the ingest process, that of the publish process, and
-- the layout.
unfoldable pub stop_pipeline : Children → Layout → ℕ × ℕ × Layout
stop_pipeline children layout =
    let down = record layout { control = record layout.control { shutdown = 1 } } in
    let (ingest_status, after_ingest) =
      wait_child children Role.ingest 1 (children.spawned Role.ingest 1) down in
    let noted = record after_ingest {
      supervisor = record after_ingest.supervisor { ingest_exit = u32 ingest_status };
    } in
    let (publish_status, after_publish) =
      wait_child children Role.publish 1 (children.spawned Role.publish 1) noted in
    (
      ingest_status,
      publish_status,
      record after_publish {
        supervisor = record after_publish.supervisor { publish_exit = u32 publish_status };
      },
    )

unfoldable pub run_once_pipeline : Children → Layout → ℕ × Layout
run_once_pipeline children layout =
    let (compute_ok, attempted) =
      run_attempts children max_compute_attempts 1 (start_pipeline children layout) in
    let (ingest_status, publish_status, stopped) = stop_pipeline children attempted in
    if not compute_ok || not (ingest_status == 0) || not (publish_status == 0)
    then (1, stopped)
    else (0, stopped)
