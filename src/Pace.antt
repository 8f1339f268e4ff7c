-- ===== src/Pace.antt =====
-- include/ratehub/pace.hpp, and `stall_limit_ns` and `finish_cycle` of src/compute.cpp: the time
-- budget of a cycle, and the test for a silent stage.
pub mod Laws
use ratehub.Prelude.{ℕ, ◌+◌, ◌-◌, ◌*◌, ◌^◌, Bool, true, false, ◌||◌, ltb, ◌==◌, if◌then◌else◌}
use ratehub.Prelude.Int.{ℤ, pos, negsuc, ◌-ℤ◌, leb_ℤ, ltb_ℤ}
use ratehub.Prelude.Words.{u32, u64, to_unsigned}

pub record Budget : Type 0 where
  pub overrun : Bool
  pub sleep_ns : ℤ

unfoldable pub budget : ℤ → ℤ → Budget
budget work_ns period_ns =
    let work = if ltb_ℤ work_ns (pos 0) then pos 0 else work_ns in
    if leb_ℤ period_ns (pos 0) || ltb_ℤ period_ns work
    then record { overrun = true; sleep_ns = pos 0 }
    else record { overrun = false; sleep_ns = period_ns -ℤ work }

unfoldable pub heartbeat_stalled : ℕ → ℕ → ℕ → Bool → Bool
heartbeat_stalled now beat silence_ns stage_done =
    if stage_done || beat == 0 || ltb now beat then false else ltb silence_ns (now - beat)

abbrev pub floor_ns : ℕ
floor_ns = 200_000_000

-- The period is a positive constant, and so is its product.
unfoldable pub stall_limit_ns : ℕ → ℕ
stall_limit_ns period_ns =
    let four = u64 (4 * period_ns) in if ltb floor_ns four then four else floor_ns

-- The counter after `finish_cycle`, and the nanoseconds it sleeps; 0 stands for a yield.
unfoldable pub finish_cycle : Bool → ℕ → ℤ → ℤ → ℕ × ℤ
unfolding budget
finish_cycle pacing_enabled overruns work_ns period_ns =
    let spent = budget work_ns period_ns in
    (
      if spent.overrun then u32 (overruns + 1) else overruns,
      if pacing_enabled
          then (if ltb_ℤ (pos 0) spent.sleep_ns then spent.sleep_ns else pos 0)
          else pos 0,
    )
