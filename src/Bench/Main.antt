-- ===== src/Bench/Main.antt =====
-- What `main` of src/bench.cpp prints and returns.
use ratehub.Prelude.{
  ℕ, ◌+◌, ◌*◌, ◌≡◌, refl, ap, ◌∙◌, List, [], ◌∷◌, map, length, get_or, ◌==◌, if◌then◌else◌, arith,
}
use ratehub.Prelude.Int.{ℤ}
use ratehub.Prelude.Words.{u64}
use ratehub.Bench.{
  sum_soa, sum_aos, Line, line_of, fill_from, large_count, sort_from, Times, report, median_ns,
  main_on, main,
}
use ratehub.Bench.Median.{median_ns-middle}
use ratehub.Bench.Sums.{total, sums-total, total-fill_from}

map-line_of : (xs : List ℤ) → map (λ (p : Line). p.x) (map line_of xs) ≡ xs
map-line_of [] = refl
map-line_of (x ∷ xs) = ap (λ l. x ∷ l) (map-line_of xs)

-- Six additions of the walk's sum, from a sink below the modulus.
sink_after :
    (k : ℕ) (times : List ℕ) (sink : ℕ)
    → length times ≡ 5
    → (median_ns (λ s. u64 (s + k)) times sink).1 ≡ u64 (sink + 6 * k)
sink_after k times sink five =
    let runs = (median_ns-middle (λ s. u64 (s + k)) times sink five).2 in runs ∙ omega arith

abbrev final_sink : ℕ → ℕ
final_sink count = u64 (384 * total (fill_from count 0))

sinks :
    (count : ℕ) (t : Times)
    → length t.soa ≡ 5
    → length t.aos ≡ 5
    → let xs = fill_from count 0 in
      let walked = (median_ns (λ sink. u64 (sink + sum_soa xs)) t.soa 0).1 in
      (median_ns (λ sink. u64 (sink + sum_aos (map line_of xs))) t.aos walked).1 ≡ final_sink count
sinks count t five five' =
    let xs = fill_from count 0 in
    let (soa, aos) = sums-total xs (map line_of xs) in
    let same : total (map (λ (p : Line). p.x) (map line_of xs)) ≡ total xs =
      ap total (map-line_of xs) in
    let first = sink_after (sum_soa xs) t.soa 0 five in
    let second = sink_after (sum_aos (map line_of xs)) t.aos _ five' in
    second ∙ omega (arith, first, soa, aos, same)

abbrev sample : List ℕ → ℕ
sample times = get_or (sort_from 5 0 times) 2 0

main_on-report :
    (count : ℕ) (t : Times)
    → length t.soa ≡ 5
    → length t.aos ≡ 5
    → main_on count t ≡ (
      if final_sink count == 0 then 1 else 0,
      report (sample t.soa) (sample t.aos) (sample t.shared) (sample t.apart) (final_sink count),
    )
unfolding main_on median_ns
main_on-report count t five five' =
    ap
      (λ sink. (
        if sink == 0 then 1 else 0,
        report (sample t.soa) (sample t.aos) (sample t.shared) (sample t.apart) sink,
      ))
      (sinks count t five five')

-- Whatever the times are, the program returns 0, and it reports as the sink 384 times the sum of the
-- numbers below 524288, which no addition has wrapped: each of the two walks has gone 32 times over them
-- in each of its six runs. The times that it reports are the third least of each five.
main-sink :
    (t : Times)
    → length t.soa ≡ 5
    → length t.aos ≡ 5
    → main t ≡ (
      0,
      report (sample t.soa) (sample t.aos) (sample t.shared) (sample t.apart) 52_776_457_469_952,
    )
main-sink t five five' =
    let gauss = total-fill_from large_count 0 (omega arith) in
    let sink : final_sink large_count ≡ 52_776_457_469_952 = omega (arith, gauss) in
    main_on-report large_count t five five'
    ∙ ap
        (λ s. (
          if s == 0 then 1 else 0,
          report (sample t.soa) (sample t.aos) (sample t.shared) (sample t.apart) s,
        ))
        sink
