-- ===== src/SpscRing/Index.antt =====
-- The masked increment of include/ratehub/spsc_ring.hpp.
use ratehub.Prelude.{ℕ, ◌+◌, ◌-◌, ◌*◌, ◌%◌, ◌^◌, ◌<◌, ◌≡◌, ◌∙◌, arith}
use ratehub.Prelude.Bits.{bit_and_mask, pow_factor}
use ratehub.Circular.{after, mod-after}
use ratehub.SpscRing.{next_index}

-- The capacity is a `std::uint32_t`.
pub pow_le : (k : ℕ) → k < 32 → 2 ^ k < 2 ^ 32
pow_le k h =
    let (m, positive, same) = pow_factor k (31 - k) in
    let e : k + (31 - k) ≡ 31 = omega arith in
    let same' : 2 ^ 31 ≡ m * 2 ^ k = rw (← same, e) in grind arith

next_index-mod : (k i : ℕ) → k < 32 → i < 2 ^ k → next_index k i ≡ (i + 1) % 2 ^ k
unfolding next_index
next_index-mod k i h hi = ground (arith, bit_and_mask k (i + 1), pow_le k (omega arith))

pub next_index-after : (k i : ℕ) → k < 32 → i < 2 ^ k → next_index k i ≡ after (2 ^ k) i
next_index-after k i h hi = next_index-mod k i h hi ∙ mod-after (2 ^ k) i hi
