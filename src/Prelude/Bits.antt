-- ===== src/Prelude/Bits.antt =====
-- Laws of the native bit operations at variables: one equation for the lowest digit, and what
-- follows from it by induction on the width.
use Prim.Native.Nat.{min, max, digits, bitwise, differ, bit_and, bit_or, bit_xor}
use Prim.Native.Nat.{bit_and-bitwise, bit_or-bitwise, bit_xor-bitwise}
use native.Mathlib.Nat.{
  le_refl, pow-suc, div-add-mod, mod-lt, div-div-eq-div-mul, div-add-mod', mod-eq_of_lt,
  mul-add-mod_self_right,
}
use ratehub.Prelude.{
  ℕ, zero, suc, ◌+◌, ◌-◌, ◌*◌, ◌/◌, ◌%◌, ◌^◌, ◌≤◌, ◌<◌, ◌≡◌, refl, ap, ◌∙◌, arith,
}

-- The native operations recurse on halves, with the first operand as fuel: any more fuel than that
-- changes nothing. `most` bounds the fuel, for the induction.
module _ (empty : ℕ → ℕ) (digit : ℕ → ℕ → ℕ) where
  digits-enough :
      (most fuel x y : ℕ)
      → fuel ≤ most
      → x ≤ fuel
      → digits empty digit fuel x y ≡ digits empty digit x x y
  digits-enough most zero x y small enough = let e : x ≡ 0 = omega arith in rw e refl
  digits-enough most (suc fuel) zero y small enough = refl
  digits-enough zero (suc fuel) (suc x) y small enough = absurd (omega arith)
  digits-enough (suc most) (suc fuel) (suc x) y small enough = omega (
    arith,
    digits-enough most fuel (suc x / 2) (y / 2) (omega arith) (omega arith),
    digits-enough most x (suc x / 2) (y / 2) (omega arith) (omega arith),
  )

  bitwise-halves :
      (x y : ℕ)
      → bitwise empty digit (suc x) y
        ≡ 2 * bitwise empty digit (suc x / 2) (y / 2) + digit (suc x % 2) (y % 2)
  bitwise-halves x y =
      omega (arith, digits-enough x x (suc x / 2) (y / 2) (omega arith) (omega arith))

bit_or_step : (x y : ℕ) → bit_or x y ≡ 2 * bit_or (x / 2) (y / 2) + max (x % 2) (y % 2)
bit_or_step (suc x) y = simp bit_or-bitwise (bitwise-halves (λ rest. rest) max x y)
bit_or_step zero y = simp bit_or-bitwise (omega arith)

differ_lem : (a b : ℕ) → a < 2 → b < 2 → differ a b ≡ (a + b) % 2
differ_lem zero zero p q = refl
differ_lem zero (suc zero) p q = refl
differ_lem (suc zero) zero p q = refl
differ_lem (suc zero) (suc zero) p q = refl
differ_lem (suc (suc a)) b p q = absurd (omega arith)
differ_lem zero (suc (suc b)) p q = absurd (omega arith)
differ_lem (suc zero) (suc (suc b)) p q = absurd (omega arith)

bit_xor_step : (a b : ℕ) → bit_xor a b ≡ bit_xor (a / 2) (b / 2) * 2 + (a + b) % 2
bit_xor_step zero b = simp bit_xor-bitwise (omega arith)
bit_xor_step (suc a) b = simp bit_xor-bitwise (
    omega (
      arith,
      bitwise-halves (λ rest. rest) differ a b,
      differ_lem (suc a % 2) (b % 2) (omega arith) (omega arith),
    ))

double_shift : (field width : ℕ) → 2 * (field * 2 ^ width) ≡ field * 2 ^ suc width
double_shift field width = omega (arith, ap (λ (p : ℕ). field * p) (pow-suc 2 width))

bit_or-zero_fuel : (most x : ℕ) → x ≤ most → bit_or x 0 ≡ x
bit_or-zero_fuel most zero small = refl
bit_or-zero_fuel (suc most) (suc x) small =
    omega (arith, bit_or-zero_fuel most (suc x / 2) (omega arith), bit_or_step (suc x) 0)
bit_or-zero_fuel zero (suc x) small = absurd (omega arith)

-- `(q << k) | r` is a sum when `r` fits `k` bits.
pub bit_or_fields :
    (width high low : ℕ) → low < 2 ^ width → bit_or (high * 2 ^ width) low ≡ high * 2 ^ width + low
bit_or_fields (suc width) high low small = ground (
  arith,
  double_shift high width,
  bit_or_fields width high (low / 2) (omega (arith, pow-suc 2 width)),
  bit_or_step (high * 2 ^ suc width) low,
)
bit_or_fields zero high low small = ground (arith, bit_or-zero_fuel high high (le_refl high))

pub bit_xor-mod_two : (a b : ℕ) → bit_xor a b % 2 ≡ (a + b) % 2
bit_xor-mod_two a b = omega (arith, bit_xor_step a b)

pub pow_pos : (k : ℕ) → 0 < 2 ^ k
pow_pos zero = omega arith
pow_pos (suc k) = omega (arith, pow_pos k, pow-suc 2 k)

-- The lowest digit apart, the remainder by twice `p` is the remainder by `p`.
mod_double : (q r p : ℕ) → r < 2 → 0 < p → (q * 2 + r) % (2 * p) ≡ (q % p) * 2 + r
mod_double q r p h hp = grind (arith, div-add-mod q p, mod-lt q hp)

-- Where the low `k` digits of `a ^ c` and `b ^ c` agree, so do those of `a` and `b`.
pub bit_xor-mod_cancel :
    (k a b c : ℕ) → bit_xor a c % 2 ^ k ≡ bit_xor b c % 2 ^ k → a % 2 ^ k ≡ b % 2 ^ k
bit_xor-mod_cancel zero a b c h = omega arith
bit_xor-mod_cancel (suc k) a b c h = ground (
  arith,
  bit_xor_step a c,
  bit_xor_step b c,
  pow-suc 2 k,
  mod_double (bit_xor (a / 2) (c / 2)) ((a + c) % 2) (2 ^ k) (omega arith) (pow_pos k),
  mod_double (bit_xor (b / 2) (c / 2)) ((b + c) % 2) (2 ^ k) (omega arith) (pow_pos k),
  mod_double (a / 2) (a % 2) (2 ^ k) (omega arith) (pow_pos k),
  mod_double (b / 2) (b % 2) (2 ^ k) (omega arith) (pow_pos k),
  bit_xor-mod_cancel k (a / 2) (b / 2) (c / 2),
)

bit_xor_comm_fuel : (n a b : ℕ) → a ≤ n → b ≤ n → bit_xor a b ≡ bit_xor b a
bit_xor_comm_fuel zero zero zero p q = refl
bit_xor_comm_fuel zero zero (suc b) p q = absurd (omega arith)
bit_xor_comm_fuel zero (suc a) b p q = absurd (omega arith)
bit_xor_comm_fuel (suc n) a b p q = omega (
  arith,
  bit_xor_step a b,
  bit_xor_step b a,
  bit_xor_comm_fuel n (a / 2) (b / 2) (omega arith) (omega arith),
)

pub bit_xor_comm : (a b : ℕ) → bit_xor a b ≡ bit_xor b a
bit_xor_comm a b = bit_xor_comm_fuel (a + b) a b (omega arith) (omega arith)

bit_and_step : (x y : ℕ) → bit_and x y ≡ 2 * bit_and (x / 2) (y / 2) + min (x % 2) (y % 2)
bit_and_step (suc x) y = simp bit_and-bitwise (bitwise-halves (λ rest. 0) min x y)
bit_and_step zero y = simp bit_and-bitwise (omega arith)

bit_and-zero_fuel : (most x : ℕ) → x ≤ most → bit_and x 0 ≡ 0
bit_and-zero_fuel most zero small = refl
bit_and-zero_fuel (suc most) (suc x) small =
    omega (arith, bit_and-zero_fuel most (suc x / 2) (omega arith), bit_and_step (suc x) 0)
bit_and-zero_fuel zero (suc x) small = absurd (omega arith)

-- A mask of one digit takes that digit.
pub bit_and_pow : (k a : ℕ) → bit_and a (2 ^ k) ≡ a / 2 ^ k % 2 * 2 ^ k
bit_and_pow zero a = omega (arith, bit_and_step a 1, bit_and-zero_fuel (a / 2) (a / 2) (le_refl _))
bit_and_pow (suc k) a = grind (
  arith,
  bit_and_step a (2 ^ suc k),
  bit_and_pow k (a / 2),
  pow-suc 2 k,
  div-div-eq-div-mul a 2 (2 ^ k),
)

bit_and_low :
    (width high low : ℕ) → low < 2 ^ width → bit_and (high * 2 ^ width + low) (2 ^ width - 1) ≡ low
bit_and_low (suc width) high low small = ground (
  arith,
  pow_pos width,
  pow-suc 2 width,
  double_shift high width,
  bit_and_low width high (low / 2),
  bit_and_step (high * 2 ^ suc width + low) (2 ^ suc width - 1),
)
bit_and_low zero high low small =
    omega (arith, bit_and-zero_fuel (high * 1 + low) (high * 1 + low) (le_refl _))

-- A mask of the low `k` digits is the remainder by `2 ^ k`.
pub bit_and_mask : (k a : ℕ) → bit_and a (2 ^ k - 1) ≡ a % 2 ^ k
bit_and_mask k a =
    ground (arith, pow_pos k, div-add-mod' a (2 ^ k), bit_and_low k (a / 2 ^ k) (a % 2 ^ k))

-- A smaller power of two divides a larger one.
pub pow_factor : (k d : ℕ) → (m : ℕ) × (0 < m) × (2 ^ (k + d) ≡ m * 2 ^ k)
pow_factor k zero = (1, omega arith, let e : k + 0 ≡ k = omega arith in rw e (omega arith))
pow_factor k (suc d) =
    let (m, positive, same) = pow_factor k d in
    let e : k + suc d ≡ suc (k + d) = omega arith in
    (2 * m, omega arith, rw e (omega (arith, pow-suc 2 (k + d))))

-- Below a multiple of `p`, the remainder counts down from `p`.
pub mod_below : (m p d : ℕ) → 0 < d → d < p → 0 < m → (m * p - d) % p ≡ p - d
mod_below zero p d hd hp hm = absurd (omega arith)
mod_below (suc m) p d hd hp hm =
    let e : suc m * p - d ≡ m * p + (p - d) = omega arith in
    rw e (mul-add-mod_self_right m p (p - d) ∙ mod-eq_of_lt (omega arith))
