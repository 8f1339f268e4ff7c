-- ===== src/Fleet/Step.antt =====
-- `step` of src/fleet.cpp: when it refuses, and how near its result is to the exact motion.
use ratehub.Prelude.{ℕ, ◌+◌, ◌*◌, ◌/◌, ◌≤◌, ◌<◌, ◌≡◌, ◌↔◌, true, false, arith}
use native.Mathlib.Nat.{le-div_iff_mul-le, mul_comm}
use native.Mathlib.Decide.{dec_lt}
use ratehub.Prelude.Int.{ℤ, pos, pos_part, neg_part, ◌*ℤ◌, tdiv, +ℤ_parts, *ℤ_pos_parts, tdiv_parts}
use ratehub.Fleet.{overflows, next_position, mag, int64_max, nanoseconds}

overflows-mag : (m dt : ℕ) → 0 < m → (dt ≤ int64_max / m) ↔ (m * dt ≤ int64_max)
overflows-mag m dt h = let e : m * dt ≡ dt * m = mul_comm m dt in rw e (le-div_iff_mul-le h)

-- The guard refuses exactly the products that do not fit: dividing the limit loses nothing.
pub overflows-false : (vel : ℤ) (dt : ℕ) → overflows vel (pos dt) ≡ false → mag vel * dt ≤ int64_max
unfolding overflows
overflows-false vel dt h = elim (dec_lt 0 (mag vel)) [
  | yes p ↦ (overflows-mag (mag vel) dt p).0 (ground arith)
  | no p ↦ let e : mag vel ≡ 0 = omega arith in rw e (omega arith)
]

pub overflows-true : (vel : ℤ) (dt : ℕ) → overflows vel (pos dt) ≡ true → int64_max < mag vel * dt
unfolding overflows
overflows-true vel dt h = elim (dec_lt int64_max (mag vel * dt)) [
  | yes p ↦ p
  | no p ↦ absurd (ground (arith, overflows-mag (mag vel) dt))
]

-- Truncation toward zero: the position moves by the whole millimetres of the exact distance, in the
-- direction of the velocity.
pub next_position_parts :
    (p vel : ℤ) (dt : ℕ)
    → pos_part (next_position p vel (pos dt)) + neg_part p + neg_part vel * dt / nanoseconds
      ≡ neg_part (next_position p vel (pos dt)) + pos_part p + pos_part vel * dt / nanoseconds
unfolding next_position
next_position_parts p vel dt =
    let q = vel *ℤ pos dt in
    ground (arith, +ℤ_parts p (tdiv q nanoseconds), tdiv_parts q nanoseconds, *ℤ_pos_parts vel dt)
