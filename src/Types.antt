-- ===== src/Types.antt =====
-- include/ratehub/types.hpp: the bounds, the native record, and the result codes.
use ratehub.Prelude.{ℕ, ◌^◌, ◌<◌}
use ratehub.Prelude.Int.{ℤ, pos}
use ratehub.Prelude.Words.{IsInt32, IsInt64}

abbrev pub max_sources : ℕ
max_sources = 64

abbrev pub schema_version : ℕ
schema_version = 3

abbrev pub frame_magic : ℕ
frame_magic = 0xa15c

abbrev pub frame_bytes : ℕ
frame_bytes = 38

abbrev pub fast_period_ns : ℕ
fast_period_ns = 5_000_000

abbrev pub window_period_ns : ℕ
window_period_ns = 25_000_000

abbrev pub snapshot_period_ns : ℕ
snapshot_period_ns = 100_000_000

-- `struct Record`
pub record Record : Type 0 where
  pub source_id : ℕ
  pub sequence : ℕ
  pub time_ns : ℤ
  pub pos_x : ℤ
  pub pos_y : ℤ
  pub vel_x : ℤ
  pub vel_y : ℤ

-- The members' initialisers.
abbrev pub blank_record : Record
blank_record = record {
  source_id = 0;
  sequence = 0;
  time_ns = pos 0;
  pos_x = pos 0;
  pos_y = pos 0;
  vel_x = pos 0;
  vel_y = pos 0;
}

pub data ParseStatus : Type 0 where
  ok truncated bad_magic bad_version bad_source bad_checksum : ParseStatus

pub data IntegrateStatus : Type 0 where
  ok bad_source bad_dt out_of_range : IntegrateStatus

-- The values that the C++ types of the fields can hold.
pub record InTypes (r : Record) : Type 0 where
  pub source_id : r.source_id < 2 ^ 32
  pub sequence : r.sequence < 2 ^ 32
  pub time_ns : IsInt64 r.time_ns
  pub pos_x : IsInt32 r.pos_x
  pub pos_y : IsInt32 r.pos_y
  pub vel_x : IsInt32 r.vel_x
  pub vel_y : IsInt32 r.vel_y
