-- ===== src/Bench/Median.antt =====
-- The sample that src/bench.cpp takes for the median.
use ratehub.Prelude.{ℕ, ◌≤◌, ◌≡◌, refl, ◌∙◌, subst, List, [], ◌∷◌, length, leb, arith}
use ratehub.Bench.{sort_from, timed_runs, median_ns}
use ratehub.Bench.Sort.{at, count, SortedTo, sort_from-SortedTo}

-- In a sorted list of five, three are at most the middle one, and three at least.
middle_of_five :
    (xs : List ℕ)
    → length xs ≡ 5
    → SortedTo 5 xs
    → (3 ≤ count (λ x. leb x (at xs 2)) xs) × (3 ≤ count (λ x. leb (at xs 2) x) xs)
unfolding count
middle_of_five (a ∷ b ∷ c ∷ d ∷ e ∷ []) size sorted =
    let h0 = sorted 0 1 (omega arith) (omega arith) (omega arith) in
    let h1 = sorted 1 2 (omega arith) (omega arith) (omega arith) in
    let h2 = sorted 2 3 (omega arith) (omega arith) (omega arith) in
    let h3 = sorted 3 4 (omega arith) (omega arith) (omega arith) in ground (arith, h0, h1, h2, h3)
middle_of_five [] size sorted = absurd (omega arith)
middle_of_five (a ∷ []) size sorted = absurd (omega arith)
middle_of_five (a ∷ b ∷ []) size sorted = absurd (omega arith)
middle_of_five (a ∷ b ∷ c ∷ []) size sorted = absurd (omega arith)
middle_of_five (a ∷ b ∷ c ∷ d ∷ []) size sorted = absurd (omega arith)
middle_of_five (a ∷ b ∷ c ∷ d ∷ e ∷ f ∷ xs) size sorted = absurd (omega arith)

six_runs :
    {S : Type 0} (fn : S → S) (times : List ℕ) (s : S)
    → length times ≡ 5
    → timed_runs fn times (fn s) ≡ fn (fn (fn (fn (fn (fn s)))))
unfolding timed_runs
six_runs fn (a ∷ b ∷ c ∷ d ∷ e ∷ []) s size = refl
six_runs fn [] s size = absurd (omega arith)
six_runs fn (a ∷ []) s size = absurd (omega arith)
six_runs fn (a ∷ b ∷ []) s size = absurd (omega arith)
six_runs fn (a ∷ b ∷ c ∷ []) s size = absurd (omega arith)
six_runs fn (a ∷ b ∷ c ∷ d ∷ []) s size = absurd (omega arith)
six_runs fn (a ∷ b ∷ c ∷ d ∷ e ∷ f ∷ xs) s size = absurd (omega arith)

-- Of five times, at least three are at most the result, and at least three are at least the result; and
-- the state is that after six runs.
pub median_ns-middle :
    {S : Type 0} (fn : S → S) (times : List ℕ) (s : S)
    → length times ≡ 5
    → let (median, s') = median_ns fn times s in
      (3 ≤ count (λ x. leb x median) times)
      × (3 ≤ count (λ x. leb median x) times)
      × (s' ≡ fn (fn (fn (fn (fn (fn s))))))
unfolding median_ns
median_ns-middle fn times s five =
    let (sized, sorted, counts) =
      sort_from-SortedTo 5 0 times (omega arith) (λ a b h. absurd (omega arith)) in
    let ys = sort_from 5 0 times in
    let (low, high) = middle_of_five ys (sized ∙ five) (subst (λ n. SortedTo n ys) five sorted) in
    (
      subst (λ n. 3 ≤ n) (counts (λ x. leb x (at ys 2))) low,
      subst (λ n. 3 ≤ n) (counts (λ x. leb (at ys 2) x)) high,
      six_runs fn times s five,
    )
