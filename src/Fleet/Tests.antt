-- ===== src/Fleet/Tests.antt =====
-- Steps of src/fleet.cpp at concrete inputs, those of tests/test_fleet.cpp among them.
use ratehub.Prelude.{◌↔◌, ◌≤◌, ◌*◌, ◌<◌, ◌≡◌, refl, false, arith}
use ratehub.Prelude.Int.{neg_part, pos, negsuc, ◌+ℤ◌, ◌*ℤ◌}
use ratehub.Prelude.Words.{IsInt32, IsInt64}
use ratehub.Types.{Record, InTypes, IntegrateStatus, fast_period_ns, max_sources}
use ratehub.Fleet.{
  int64_max, empty_fleet, overflows, next_position, fits_int32, step, store_row, integrate,
}
use ratehub.Fleet.Rows.{row, stepped, integrate-row, integrate_ok_iff}
use ratehub.Fleet.Invariant.{empty_fleet-IsFleet, Axis, integrate-no_overflow}

abbrev sample : Record
sample = record {
  source_id = 1;
  sequence = 1;
  time_ns = pos 0;
  pos_x = pos 1000;
  pos_y = pos 0;
  vel_x = pos 2000;
  vel_y = negsuc 99;
}

sample-InTypes : InTypes sample
sample-InTypes = omega arith

accepted : (integrate empty_fleet sample (pos fast_period_ns)).0 ≡ IntegrateStatus.ok
unfolding integrate step overflows next_position fits_int32 ◌+ℤ◌ ◌*ℤ◌
accepted = refl

-- 2000 mm/s for 5 ms is 10 mm.
moved : (row (integrate empty_fleet sample (pos fast_period_ns)).1 1).pos_x ≡ pos 1010
unfolding integrate step overflows next_position fits_int32 store_row ◌+ℤ◌ ◌*ℤ◌
moved = refl

abbrev edge : Record
edge = record sample { pos_x = pos 2_147_483_647; vel_x = pos 1000 }

out_of_range : (integrate empty_fleet edge (pos 1_000_000_000)).0 ≡ IntegrateStatus.out_of_range
unfolding integrate step overflows next_position fits_int32 ◌+ℤ◌ ◌*ℤ◌
out_of_range = refl

integrate-row_example :
    row (integrate empty_fleet sample (pos fast_period_ns)).1 1
    ≡ stepped empty_fleet sample fast_period_ns
integrate-row_example =
    integrate-row empty_fleet sample fast_period_ns 1 empty_fleet-IsFleet accepted

integrate_ok_iff_example :
    ((integrate empty_fleet sample (pos fast_period_ns)).0 ≡ IntegrateStatus.ok) ↔ (
      (1 < max_sources)
      × (neg_part (pos fast_period_ns) ≡ 0)
      × (2000 * fast_period_ns ≤ int64_max)
      × IsInt32 (next_position (pos 1000) (pos 2000) (pos fast_period_ns))
      × (100 * fast_period_ns ≤ int64_max)
      × IsInt32 (next_position (pos 0) (negsuc 99) (pos fast_period_ns)))
integrate_ok_iff_example = integrate_ok_iff empty_fleet sample (pos fast_period_ns)

let_through : overflows (negsuc 99) (pos fast_period_ns) ≡ false
unfolding overflows
let_through = refl

integrate-no_overflow_example :
    (100 ≤ int64_max)
    × IsInt64 (negsuc 99 *ℤ pos fast_period_ns)
    × IsInt64 (next_position (pos 0) (negsuc 99) (pos fast_period_ns))
integrate-no_overflow_example =
    integrate-no_overflow Axis.axis_y empty_fleet sample fast_period_ns empty_fleet-IsFleet
      sample-InTypes let_through
