-- ===== src/Bench.antt =====
-- src/bench.cpp: the median of five runs, the two walks over the same numbers, the two counters that
-- two threads pound, and what `main` prints. A time is the difference of two readings of the steady
-- clock, which does not go back, and the five times of a measurement are an argument. A pointer and a
-- count are the list of the values.
pub mod Sort
pub mod Median
pub mod Sums
pub mod Pound
pub mod Main
mod Tests
use ratehub.Prelude.{
  ℕ, zero, suc, ◌+◌, ◌*◌, ◌/◌, ◌^◌, List, [], ◌∷◌, ◌++◌, map, get_or, set, replicate, ltb, ◌==◌,
  if◌then◌else◌,
}
use ratehub.Prelude.Int.{ℤ, pos}
use ratehub.Prelude.Words.{u64, to_unsigned}
use ratehub.Prelude.Text.{codes, decimal}

-- The body of the two loops over `samples`.
unfoldable pub compare_swap : ℕ → ℕ → List ℕ → List ℕ
compare_swap i j samples =
    if ltb (get_or samples j 0) (get_or samples i 0)
    then set (set samples i (get_or samples j 0)) j (get_or samples i 0)
    else samples

-- The loop over `j`, with `left` rounds left.
unfoldable pub sweep : ℕ → ℕ → ℕ → List ℕ → List ℕ
sweep zero i j samples = samples
sweep (suc left) i j samples = sweep left i (suc j) (compare_swap i j samples)

-- The loop over `i`, with `left` rounds left: the loop over `j` then has one less.
unfoldable pub sort_from : ℕ → ℕ → List ℕ → List ℕ
sort_from zero i samples = samples
sort_from (suc left) i samples = sort_from left (suc i) (sweep left i (suc i) samples)

-- The runs that are timed.
unfoldable pub timed_runs : {S : Type 0} → (S → S) → List ℕ → S → S
timed_runs fn [] s = s
timed_runs fn (t ∷ times) s = timed_runs fn times (fn s)

-- The median, and the state after the first run and the timed ones.
unfoldable pub median_ns : {S : Type 0} → (S → S) → List ℕ → S → ℕ × S
median_ns fn times s = (get_or (sort_from 5 0 times) 2 0, timed_runs fn times (fn s))

abbrev pub large_count : ℕ
large_count = 32 * 2 ^ 20 / 64

pub record Line : Type 0 where
  pub x : ℤ
  pub pad : List ℕ

abbrev pub word : ℤ → ℕ
word x = to_unsigned (2 ^ 32) x

abbrev pub add : ℕ → ℤ → ℕ
add sum x = u64 (sum + word x)

-- The second loop of a pass.
unfoldable pub rest_soa : List ℤ → ℕ → ℕ
rest_soa [] a = a
rest_soa (x ∷ xs) a = rest_soa xs (add a x)

-- A pass: the loop by fours, the second loop, and the sum of the four.
unfoldable pub pass_soa : List ℤ → ℕ → ℕ → ℕ → ℕ → ℕ
unfolding rest_soa
pass_soa (x ∷ y ∷ z ∷ v ∷ xs) a b c d = pass_soa xs (add a x) (add b y) (add c z) (add d v)
pass_soa [] a b c d = u64 (rest_soa [] a + b + c + d)
pass_soa (x ∷ []) a b c d = u64 (rest_soa (x ∷ []) a + b + c + d)
pass_soa (x ∷ y ∷ []) a b c d = u64 (rest_soa (x ∷ y ∷ []) a + b + c + d)
pass_soa (x ∷ y ∷ z ∷ []) a b c d = u64 (rest_soa (x ∷ y ∷ z ∷ []) a + b + c + d)

-- `left` passes.
unfoldable pub passes : ℕ → ℕ → ℕ → ℕ
passes zero pass sum = sum
passes (suc left) pass sum = passes left pass (u64 (sum + pass))

unfoldable pub sum_soa : List ℤ → ℕ
unfolding passes pass_soa
sum_soa xs = passes 32 (pass_soa xs 0 0 0 0) 0

unfoldable pub rest_aos : List Line → ℕ → ℕ
rest_aos [] a = a
rest_aos (p ∷ points) a = rest_aos points (add a p.x)

unfoldable pub pass_aos : List Line → ℕ → ℕ → ℕ → ℕ → ℕ
unfolding rest_aos
pass_aos (p ∷ q ∷ r ∷ s ∷ points) a b c d =
    pass_aos points (add a p.x) (add b q.x) (add c r.x) (add d s.x)
pass_aos [] a b c d = u64 (rest_aos [] a + b + c + d)
pass_aos (p ∷ []) a b c d = u64 (rest_aos (p ∷ []) a + b + c + d)
pass_aos (p ∷ q ∷ []) a b c d = u64 (rest_aos (p ∷ q ∷ []) a + b + c + d)
pass_aos (p ∷ q ∷ r ∷ []) a b c d = u64 (rest_aos (p ∷ q ∷ r ∷ []) a + b + c + d)

unfoldable pub sum_aos : List Line → ℕ
unfolding passes pass_aos
sum_aos points = passes 32 (pass_aos points 0 0 0 0) 0

-- The loop that fills the vectors, from `i` on, with `left` rounds left. `pad` is not written.
unfoldable pub fill_from : ℕ → ℕ → List ℤ
fill_from zero i = []
fill_from (suc left) i = pos i ∷ fill_from left (suc i)

abbrev pub line_of : ℤ → Line
line_of x = record { x = x; pad = replicate 60 0 }

pub record Counters : Type 0 where
  pub left : ℕ
  pub right : ℕ

-- What `pound` leaves: the threads are in the module on it.
unfoldable pub pound : Counters → Counters
pound c = record { left = u64 (c.left + 200000); right = u64 (c.right + 200000) }

-- The times of the four measurements.
pub record Times : Type 0 where
  pub soa : List ℕ
  pub aos : List ℕ
  pub shared : List ℕ
  pub apart : List ℕ

unfoldable pub report : ℕ → ℕ → ℕ → ℕ → ℕ → List ℕ
report soa aos shared apart sink =
    codes "soa_ns "
    ++ decimal soa
    ++ codes "\naos_ns "
    ++ decimal aos
    ++ codes "\nadjacent_ns "
    ++ decimal shared
    ++ codes "\npadded_ns "
    ++ decimal apart
    ++ codes "\nsink "
    ++ decimal sink
    ++ codes "\n"

-- `main` with `count` for `kLargeCount`: the status, and the text.
unfoldable pub main_on : ℕ → Times → ℕ × List ℕ
unfolding sum_soa sum_aos fill_from pound median_ns report
main_on count t =
    let xs = fill_from count 0 in
    let points = map line_of xs in
    let zeros : Counters = record { left = 0; right = 0 } in
    let (soa, walked) = median_ns (λ sink. u64 (sink + sum_soa xs)) t.soa 0 in
    let (aos, sink) = median_ns (λ sink. u64 (sink + sum_aos points)) t.aos walked in
    let (shared, adjacent) = median_ns pound t.shared zeros in
    let (apart, padded) = median_ns pound t.apart zeros in
    (if sink == 0 then 1 else 0, report soa aos shared apart sink)

abbrev pub main : Times → ℕ × List ℕ
main t = main_on large_count t
