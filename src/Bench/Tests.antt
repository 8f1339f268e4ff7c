-- ===== src/Bench/Tests.antt =====
-- src/bench.cpp at concrete times and numbers.
use ratehub.Prelude.{◌+◌, ◌*◌, ◌≡◌, refl, List, [], ◌∷◌, map}
use ratehub.Prelude.Int.{ℤ, pos, negsuc}
use ratehub.Prelude.Words.{u64}
use ratehub.Bench.{compare_swap, sweep, sort_from, sum_soa, Line, sum_aos}
use ratehub.Bench.Sums.{total, sums-total}

sorts : sort_from 5 0 (30 ∷ 10 ∷ 50 ∷ 20 ∷ 40 ∷ []) ≡ 10 ∷ 20 ∷ 30 ∷ 40 ∷ 50 ∷ []
unfolding sort_from sweep compare_swap
sorts = refl

abbrev numbers : List ℤ
numbers = pos 1 ∷ pos 2 ∷ pos 3 ∷ negsuc 0 ∷ pos 5 ∷ []

abbrev points : List Line
points = map (λ x. record { x = x; pad = 9 ∷ [] }) numbers

walks : sum_soa numbers ≡ 32 * (1 + 2 + 3 + 4294967295 + 5)
unfolding sum_soa
walks = refl

sums-total_example :
    (sum_soa numbers ≡ u64 (32 * total numbers))
    × (sum_aos points ≡ u64 (32 * total (map (λ p. p.x) points)))
sums-total_example = sums-total numbers points
