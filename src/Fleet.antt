-- ===== src/Fleet.antt =====
-- src/fleet.cpp and include/ratehub/fleet.hpp: the working set of the 5 ms thread, and one
-- fixed-point step of a source. A column of `FleetSoA` is the list of its 64 values. The integers
-- are unbounded; `Fleet.Overflow` shows that no value leaves its C++ type.
pub mod Step
pub mod Overflow
pub mod Rows
pub mod Invariant
mod Tests
use ratehub.Prelude.{
  ℕ, ◌+◌, ◌-◌, ◌/◌, ◌^◌, ◌≡◌, Bool, true, false, not, ◌&&◌, ◌||◌, List, length, get_or, set, ltb,
  leb, ◌==◌, if◌then◌else◌, replicate,
}
use ratehub.Prelude.Int.{ℤ, pos, negsuc, pos_part, neg_part, ◌+ℤ◌, ◌*ℤ◌, leb_ℤ, ltb_ℤ, tdiv}
use ratehub.Types.{Record, IntegrateStatus, max_sources}

pub record FleetSoA : Type 0 where
  pub pos_x : List ℤ
  pub pos_y : List ℤ
  pub vel_x : List ℤ
  pub vel_y : List ℤ
  pub sequence : List ℕ
  pub time_ns : List ℤ
  pub valid : List Bool

-- The members' initialisers.
abbrev pub empty_fleet : FleetSoA
empty_fleet = record {
  pos_x = replicate max_sources (pos 0);
  pos_y = replicate max_sources (pos 0);
  vel_x = replicate max_sources (pos 0);
  vel_y = replicate max_sources (pos 0);
  sequence = replicate max_sources 0;
  time_ns = replicate max_sources (pos 0);
  valid = replicate max_sources false;
}

abbrev pub int64_max : ℕ
int64_max = 2 ^ 63 - 1

abbrev pub int32_max : ℕ
int32_max = 2 ^ 31 - 1

abbrev pub nanoseconds : ℕ
nanoseconds = 1_000_000_000

-- `mag` of `step`: the velocity without its sign.
abbrev pub mag : ℤ → ℕ
mag vel = pos_part vel + neg_part vel

-- The multiplication is refused: `vel != 0 && dt_ns > INT64_MAX / mag`.
unfoldable pub overflows : ℤ → ℤ → Bool
overflows vel dt_ns = not (mag vel == 0) && ltb_ℤ (pos (int64_max / mag vel)) dt_ns

unfoldable pub next_position : ℤ → ℤ → ℤ → ℤ
next_position p vel dt_ns = p +ℤ tdiv (vel *ℤ dt_ns) nanoseconds

unfoldable pub fits_int32 : ℤ → Bool
fits_int32 z = leb_ℤ z (pos int32_max) && leb_ℤ (negsuc int32_max) z

-- The result, with the value left in `next`.
unfoldable pub step : ℤ → ℤ → ℤ → ℤ → Bool × ℤ
step p vel dt_ns next =
    if overflows vel dt_ns
    then (false, next)
    else (let next' = next_position p vel dt_ns in (fits_int32 next', next'))

-- Where a step of row `id` starts, along one axis.
abbrev pub base : FleetSoA → ℕ → List ℤ → ℤ → ℤ
base fleet id column sample =
    if get_or fleet.valid id false then get_or column id (pos 0) else sample

-- The stores at the end of `integrate`.
unfoldable pub store_row : FleetSoA → Record → ℤ → ℤ → FleetSoA
store_row fleet sample next_x next_y =
    let id = sample.source_id in
    record {
      pos_x = set fleet.pos_x id next_x;
      pos_y = set fleet.pos_y id next_y;
      vel_x = set fleet.vel_x id sample.vel_x;
      vel_y = set fleet.vel_y id sample.vel_y;
      sequence = set fleet.sequence id sample.sequence;
      time_ns = set fleet.time_ns id sample.time_ns;
      valid = set fleet.valid id true;
    }

unfoldable pub integrate : FleetSoA → Record → ℤ → IntegrateStatus × FleetSoA
integrate fleet sample dt_ns =
    if leb max_sources sample.source_id
    then (IntegrateStatus.bad_source, fleet)
    else if ltb_ℤ dt_ns (pos 0)
    then (IntegrateStatus.bad_dt, fleet)
    else (let base_x = base fleet sample.source_id fleet.pos_x sample.pos_x in
        let base_y = base fleet sample.source_id fleet.pos_y sample.pos_y in
        let (x_ok, next_x) = step base_x sample.vel_x dt_ns (pos 0) in
        let (y_ok, next_y) = step base_y sample.vel_y dt_ns (pos 0) in
        if not x_ok || not y_ok
        then (IntegrateStatus.out_of_range, fleet)
        else (IntegrateStatus.ok, store_row fleet sample next_x next_y))
