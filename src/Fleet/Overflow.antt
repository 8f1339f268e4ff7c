-- ===== src/Fleet/Overflow.antt =====
-- Ranges in `step` of src/fleet.cpp: no signed operation leaves `std::int64_t`, and a step passes
-- exactly when the product and the new position fit.
use ratehub.Prelude.{ℕ, ◌*◌, ◌^◌, ◌≤◌, ◌<◌, ◌≡◌, ◌↔◌, true, false, Bool-cases, inl, inr, arith}
use ratehub.Prelude.Int.{ℤ, pos, negsuc, pos_part, neg_part, ◌*ℤ◌, *ℤ_pos_parts, parts_disjoint}
use ratehub.Prelude.Words.{IsSigned, IsInt32, IsInt64}
use ratehub.Fleet.{overflows, next_position, fits_int32, step, mag, int64_max}
use ratehub.Fleet.Step.{overflows-false, overflows-true, next_position_parts}

IsSigned-of_parts : (h : ℕ) (z : ℤ) → pos_part z < h → neg_part z ≤ h → IsSigned h z
IsSigned-of_parts h (pos n) p q = p
IsSigned-of_parts h (negsuc n) p q = q

parts_of_IsInt32 : (z : ℤ) → IsInt32 z → (pos_part z < 2 ^ 31) × (neg_part z ≤ 2 ^ 31)
parts_of_IsInt32 (pos n) h = omega arith
parts_of_IsInt32 (negsuc n) h = omega arith

parts-le-mag :
    (vel : ℤ) (dt : ℕ) → (pos_part vel * dt ≤ mag vel * dt) × (neg_part vel * dt ≤ mag vel * dt)
parts-le-mag vel dt = grind arith

-- No overflow of the signed operations that follow the guard: the product, and the sum with the
-- quotient, are values of `std::int64_t`, and so is the magnitude that the guard divides by.
pub step-InRange :
    (p vel : ℤ) (dt : ℕ)
    → IsInt32 p
    → IsInt32 vel
    → overflows vel (pos dt) ≡ false
    → (mag vel ≤ int64_max) × IsInt64 (vel *ℤ pos dt) × IsInt64 (next_position p vel (pos dt))
step-InRange p vel dt hp hv h = (
  omega (arith, parts_of_IsInt32 vel hv),
  IsSigned-of_parts (2 ^ 63) (vel *ℤ pos dt) product.0 product.1,
  IsSigned-of_parts (2 ^ 63) (next_position p vel (pos dt)) sum.0 sum.1,
)
  where
    small : mag vel * dt ≤ int64_max
    small = overflows-false vel dt h

    product : (pos_part (vel *ℤ pos dt) < 2 ^ 63) × (neg_part (vel *ℤ pos dt) ≤ 2 ^ 63)
    product = omega (arith, small, parts-le-mag vel dt, *ℤ_pos_parts vel dt)

    sum :
        (pos_part (next_position p vel (pos dt)) < 2 ^ 63)
        × (neg_part (next_position p vel (pos dt)) ≤ 2 ^ 63)
    sum = omega (
      arith,
      small,
      parts-le-mag vel dt,
      next_position_parts p vel dt,
      parts_of_IsInt32 p hp,
      parts_disjoint (next_position p vel (pos dt)),
    )

pub fits_int32_iff : (z : ℤ) → (fits_int32 z ≡ true) ↔ IsInt32 z
unfolding fits_int32
fits_int32_iff (pos n) = ground arith
fits_int32_iff (negsuc n) = ground arith

-- A step passes exactly when the product fits `std::int64_t` and the new position `std::int32_t`.
pub step_iff :
    (p vel : ℤ) (dt : ℕ) (next : ℤ)
    → ((step p vel (pos dt) next).0 ≡ true)
      ↔ ((mag vel * dt ≤ int64_max) × IsInt32 (next_position p vel (pos dt)))
unfolding step
step_iff p vel dt next = elim (Bool-cases (overflows vel (pos dt))) [
  | inl e ↦ (λ h. absurd (ground arith), λ h. absurd (omega (arith, overflows-true vel dt e)))
  | inr e ↦
      rw e (λ h. (overflows-false vel dt e, (fits_int32_iff _).0 h), λ h. (fits_int32_iff _).1 h.1)
]

pub step_next :
    (p vel : ℤ) (dt : ℕ) (next : ℤ)
    → (step p vel (pos dt) next).0 ≡ true
    → (step p vel (pos dt) next).1 ≡ next_position p vel (pos dt)
unfolding step
step_next p vel dt next h = ground arith
