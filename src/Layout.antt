-- ===== src/Layout.antt =====
-- include/ratehub/layout.hpp, include/ratehub/shm_control.hpp and
-- include/ratehub/supervisor_state.hpp: what the processes share. An atomic is its value; alignment
-- has no counterpart.
use ratehub.Prelude.{ℕ, Bool, not, List, ◌==◌}
use ratehub.Prelude.Int.{ℤ, pos}
use ratehub.Types.{Record, schema_version}
use ratehub.SpscRing.{SpscRing}
use ratehub.Seqlock.{Seqlock}
use ratehub.TripleBuffer.{TripleBuffer}

abbrev pub shm_magic : ℕ
shm_magic = 0x52484c59

pub record ShmControl : Type 0 where
  pub magic : ℕ
  pub schema : ℕ
  pub reserved : ℕ
  pub shutdown : ℕ
  pub generation : ℕ
  pub ingest_done : ℕ
  pub fast_done : ℕ
  pub window_done : ℕ
  pub compute_done : ℕ
  pub fault : ℕ
  pub snapshot_done : ℕ
  pub overrun_fast : ℕ
  pub overrun_window : ℕ
  pub overrun_snapshot : ℕ
  pub heartbeat_ingest : ℕ
  pub heartbeat_compute : ℕ
  pub heartbeat_publish : ℕ
  pub heartbeat_fast : ℕ
  pub heartbeat_window : ℕ
  pub heartbeat_snapshot : ℕ

-- The members' initialisers.
abbrev pub new_control : ShmControl
new_control = record {
  magic = shm_magic;
  schema = schema_version;
  reserved = 0;
  shutdown = 0;
  generation = 1;
  ingest_done = 0;
  fast_done = 0;
  window_done = 0;
  compute_done = 0;
  fault = 0;
  snapshot_done = 0;
  overrun_fast = 0;
  overrun_window = 0;
  overrun_snapshot = 0;
  heartbeat_ingest = 0;
  heartbeat_compute = 0;
  heartbeat_publish = 0;
  heartbeat_fast = 0;
  heartbeat_window = 0;
  heartbeat_snapshot = 0;
}

pub record SupervisorState : Type 0 where
  pub ingest_pid : ℕ
  pub compute_pid : ℕ
  pub publish_pid : ℕ
  pub observe_pid : ℕ
  pub ingest_exit : ℕ
  pub compute_exit : ℕ
  pub publish_exit : ℕ
  pub observe_release : ℕ
  pub rerun_request : ℕ

abbrev pub new_supervisor : SupervisorState
new_supervisor = record {
  ingest_pid = 0;
  compute_pid = 0;
  publish_pid = 0;
  observe_pid = 0;
  ingest_exit = 0;
  compute_exit = 0;
  publish_exit = 0;
  observe_release = 0;
  rerun_request = 0;
}

unfoldable pub request_rerun : SupervisorState → SupervisorState
request_rerun state = record state { rerun_request = 1 }

unfoldable pub take_rerun : SupervisorState → Bool × SupervisorState
take_rerun state = (not (state.rerun_request == 0), record state { rerun_request = 0 })

pub record SourceState : Type 0 where
  pub pos_x : ℤ
  pub pos_y : ℤ
  pub vel_x : ℤ
  pub vel_y : ℤ
  pub sequence : ℕ
  pub publishes : ℕ
  pub time_ns : ℤ
  pub valid : ℕ

pub record WindowState : Type 0 where
  pub pos_x : ℤ
  pub pos_y : ℤ
  pub sequence : ℕ
  pub publishes : ℕ

abbrev pub blank_window : WindowState
blank_window = record { pos_x = pos 0; pos_y = pos 0; sequence = 0; publishes = 0 }

pub record Snapshot : Type 0 where
  pub generation : ℕ
  pub rows : List WindowState

pub record Layout : Type 0 where
  pub control : ShmControl
  pub supervisor : SupervisorState
  pub ring : SpscRing Record
  pub latest : List Seqlock
  pub window : List Seqlock
  pub snapshots : TripleBuffer Snapshot
