-- ===== src/Bench/Sums.antt =====
-- The two walks of src/bench.cpp.
use ratehub.Prelude.{
  ℕ, zero, suc, ◌+◌, ◌*◌, ◌%◌, ◌^◌, ◌≤◌, ◌<◌, ◌≡◌, refl, ap, ◌∙◌, List, [], ◌∷◌, map, arith,
}
use ratehub.Prelude.Int.{ℤ}
use ratehub.Prelude.Words.{u64}
use ratehub.Bench.{
  word, add, fill_from, rest_soa, pass_soa, passes, sum_soa, Line, rest_aos, pass_aos, sum_aos,
}

-- The sum of the numbers, each taken as an unsigned word.
unfoldable pub total : List ℤ → ℕ
total [] = 0
total (x ∷ xs) = word x + total xs

rest_soa-total : (xs : List ℤ) (a : ℕ) → rest_soa xs a % 2 ^ 64 ≡ (a + total xs) % 2 ^ 64
unfolding rest_soa total
rest_soa-total [] a = omega arith
rest_soa-total (x ∷ xs) a = omega (arith, rest_soa-total xs (add a x))

pass_soa-total : (xs : List ℤ) (a b c d : ℕ) → pass_soa xs a b c d ≡ u64 (a + b + c + d + total xs)
unfolding pass_soa total
pass_soa-total (x ∷ y ∷ z ∷ v ∷ xs) a b c d =
    omega (arith, pass_soa-total xs (add a x) (add b y) (add c z) (add d v))
pass_soa-total [] a b c d = omega (arith, rest_soa-total [] a)
pass_soa-total (x ∷ []) a b c d = omega (arith, rest_soa-total (x ∷ []) a)
pass_soa-total (x ∷ y ∷ []) a b c d = omega (arith, rest_soa-total (x ∷ y ∷ []) a)
pass_soa-total (x ∷ y ∷ z ∷ []) a b c d = omega (arith, rest_soa-total (x ∷ y ∷ z ∷ []) a)

passes-times : (left pass sum : ℕ) → passes left pass sum % 2 ^ 64 ≡ (sum + left * pass) % 2 ^ 64
unfolding passes
passes-times zero pass sum = omega arith
passes-times (suc left) pass sum = omega (arith, passes-times left pass (u64 (sum + pass)))

-- The passes end below the modulus.
passes-lt : (left pass sum : ℕ) → sum < 2 ^ 64 → passes left pass sum < 2 ^ 64
unfolding passes
passes-lt zero pass sum h = h
passes-lt (suc left) pass sum h = passes-lt left pass (u64 (sum + pass)) (omega arith)

-- The walk by fours, 32 times over, is 32 times the plain sum, modulo `2 ^ 64`.
pub sum_soa-total : (xs : List ℤ) → sum_soa xs ≡ u64 (32 * total xs)
unfolding sum_soa
sum_soa-total xs =
    let pass = pass_soa xs 0 0 0 0 in
    omega
      (arith, pass_soa-total xs 0 0 0 0, passes-times 32 pass 0, passes-lt 32 pass 0 (omega arith))

rest_aos-soa : (points : List Line) (a : ℕ) → rest_aos points a ≡ rest_soa (map (λ p. p.x) points) a
unfolding rest_aos rest_soa
rest_aos-soa [] a = refl
rest_aos-soa (p ∷ points) a = rest_aos-soa points (add a p.x)

pass_aos-soa :
    (points : List Line) (a b c d : ℕ)
    → pass_aos points a b c d ≡ pass_soa (map (λ p. p.x) points) a b c d
unfolding pass_aos pass_soa rest_aos rest_soa
pass_aos-soa (p ∷ q ∷ r ∷ s ∷ points) a b c d =
    pass_aos-soa points (add a p.x) (add b q.x) (add c r.x) (add d s.x)
pass_aos-soa [] a b c d = refl
pass_aos-soa (p ∷ []) a b c d = refl
pass_aos-soa (p ∷ q ∷ []) a b c d = refl
pass_aos-soa (p ∷ q ∷ r ∷ []) a b c d = refl

-- Both walks compute 32 times the plain sum of the numbers, each taken as an unsigned word, modulo
-- `2 ^ 64`: the walk over the lines that of their `x`, whatever the padding holds.
pub sums-total :
    (xs : List ℤ) (points : List Line)
    → (sum_soa xs ≡ u64 (32 * total xs))
      × (sum_aos points ≡ u64 (32 * total (map (λ p. p.x) points)))
unfolding sum_aos sum_soa
sums-total xs points = (
  sum_soa-total xs,
  ap (λ pass. passes 32 pass 0) (pass_aos-soa points 0 0 0 0)
      ∙ sum_soa-total (map (λ p. p.x) points),
)

-- Gauss, for the numbers that `main` fills in.
pub total-fill_from :
    (left i : ℕ) → left + i ≤ 2 ^ 32 → 2 * total (fill_from left i) + left ≡ left * (2 * i + left)
unfolding total fill_from
total-fill_from zero i h = omega arith
total-fill_from (suc left) i h = omega (arith, total-fill_from left (suc i) (omega arith))
