-- ===== src/Bench/Sort.antt =====
-- The sort of src/bench.cpp.
use ratehub.Prelude.{
  ℕ, zero, suc, ◌+◌, ◌≤◌, ◌<◌, ◌≡◌, ◌≢◌, refl, sym, ap, ◌∙◌, subst, inl, inr, Bool, Bool-cases,
  List, [], ◌∷◌, length, get_or, set, length-set, get_or-set_self, get_or-set_ne, ltb, ◌==◌, ==_iff,
  if◌then◌else◌, arith,
}
use ratehub.Bench.{compare_swap, sweep, sort_from}

abbrev pub at : List ℕ → ℕ → ℕ
at xs k = get_or xs k 0

abbrev pub bit : Bool → ℕ
bit b = if b then 1 else 0

-- The number of samples that pass a test.
unfoldable pub count : (ℕ → Bool) → List ℕ → ℕ
count p [] = 0
count p (x ∷ xs) = bit (p x) + count p xs

count-set :
    (p : ℕ → Bool) (xs : List ℕ) (i v : ℕ)
    → i < length xs
    → count p (set xs i v) + bit (p (at xs i)) ≡ count p xs + bit (p v)
unfolding count
count-set p [] i v h = absurd (omega arith)
count-set p (x ∷ xs) zero v h = omega arith
count-set p (x ∷ xs) (suc i) v h = omega (arith, count-set p xs i v (omega arith))

-- What one comparison leaves, for places `i` below `j`.
record Swapped (i j : ℕ) (xs ys : List ℕ) : Type 0 where
  pub sized : length ys ≡ length xs
  pub low : (at ys i ≤ at xs i) × (at ys i ≤ at ys j)
  pub others : (k : ℕ) → k ≢ i → k ≢ j → at ys k ≡ at xs k
  pub bounds : (v : ℕ) → v ≤ at xs i → v ≤ at xs j → (v ≤ at ys i) × (v ≤ at ys j)
  pub counts : (p : ℕ → Bool) → count p ys ≡ count p xs

swap-Swapped :
    (i j : ℕ) (xs : List ℕ)
    → i < j
    → j < length xs
    → at xs j < at xs i
    → Swapped i j xs (set (set xs i (at xs j)) j (at xs i))
swap-Swapped i j xs lt below less =
    let zs = set xs i (at xs j) in
    let size : length zs ≡ length xs = length-set xs i (at xs j) in
    let high : at (set zs j (at xs i)) j ≡ at xs i =
      get_or-set_self zs j (at xs i) 0 (omega (arith, size)) in
    let middle : at zs j ≡ at xs j = get_or-set_ne xs i j (at xs j) 0 (omega arith) in
    let low : at (set zs j (at xs i)) i ≡ at xs j =
      get_or-set_ne zs j i (at xs i) 0 (omega arith)
      ∙ get_or-set_self xs i (at xs j) 0 (omega arith) in
    record {
      sized = length-set zs j (at xs i) ∙ size;
      low = (omega (arith, low, less), omega (arith, low, high, less));
      others = λ k ni nj.
          get_or-set_ne zs j k (at xs i) 0 (λ e. nj (sym e))
          ∙ get_or-set_ne xs i k (at xs j) 0 (λ e. ni (sym e));
      bounds = λ v hi hj. (omega (arith, low, hj), omega (arith, high, hi));
      counts = λ p.
          let same : bit (p (at zs j)) ≡ bit (p (at xs j)) = ap (λ n. bit (p n)) middle in
          let first = count-set p xs i (at xs j) (omega arith) in
          let second = count-set p zs j (at xs i) (omega (arith, size)) in
          omega (arith, same, first, second);
    }

compare_swap-Swapped :
    (i j : ℕ) (xs : List ℕ) → i < j → j < length xs → Swapped i j xs (compare_swap i j xs)
unfolding compare_swap
compare_swap-Swapped i j xs lt below = elim (Bool-cases (ltb (at xs j) (at xs i))) [
  | inr e ↦ rw e (record {
    sized = refl;
    low = ground (arith, e);
    others = λ k ni nj. refl;
    bounds = λ v hi hj. (hi, hj);
    counts = λ p. refl;
  })
  | inl e ↦ rw e (swap-Swapped i j xs lt below (ground (arith, e)))
]

-- The two places that were compared, and the others.
by_place : (P : ℕ → Type 0) (i j : ℕ) → P i → P j → ((k : ℕ) → k ≢ i → k ≢ j → P k) → (k : ℕ) → P k
by_place P i j pi pj others k = elim (Bool-cases (k == i)) [
  | inl e ↦ subst P (sym ((==_iff k i).0 e)) pi
  | inr ni ↦ elim (Bool-cases (k == j)) [
    | inl e ↦ subst P (sym ((==_iff k j).0 e)) pj
    | inr nj ↦
        others k (λ same. cc (ni, (==_iff k i).1 same)) (λ same. cc (nj, (==_iff k j).1 same))
  ]
]

-- What a sweep from `j` on leaves: the least sample of those from `i` on, in place `i`.
record Swept (i : ℕ) (xs ys : List ℕ) : Type 0 where
  pub sized : length ys ≡ length xs
  pub before : (k : ℕ) → k < i → at ys k ≡ at xs k
  pub least : (k : ℕ) → i ≤ k → k < length xs → at ys i ≤ at ys k
  pub bounds :
      (v : ℕ)
      → ((k : ℕ) → i ≤ k → k < length xs → v ≤ at xs k)
      → (k : ℕ) → i ≤ k
      → k < length xs
      → v ≤ at ys k
  pub counts : (p : ℕ → Bool) → count p ys ≡ count p xs

sweep-Swept :
    (left i j : ℕ) (xs : List ℕ)
    → i < j
    → left + j ≡ length xs
    → ((k : ℕ) → i ≤ k → k < j → at xs i ≤ at xs k)
    → Swept i xs (sweep left i j xs)
unfolding sweep
sweep-Swept zero i j xs lt size least = record {
  sized = refl;
  before = λ k h. refl;
  least = λ k h below. least k h (omega arith);
  bounds = λ v h. h;
  counts = λ p. refl;
}
sweep-Swept (suc left) i j xs lt size least =
    let ys = compare_swap i j xs in
    let s = compare_swap-Swapped i j xs lt (omega arith) in
    let below_next : (k : ℕ) → i ≤ k → k < suc j → at ys i ≤ at ys k =
      by_place (λ k. i ≤ k → k < suc j → at ys i ≤ at ys k) i j (λ h below. omega arith)
        (λ h below. s.low.1)
        (λ k ni nj h below. omega (arith, s.others k ni nj, s.low, least k h (omega arith))) in
    let bounds_next : (v : ℕ)
        → ((k : ℕ) → i ≤ k → k < length xs → v ≤ at xs k)
        → (k : ℕ) → i ≤ k
        → k < length ys
        → v ≤ at ys k =
      λ v h.
        let both = s.bounds v (h i (omega arith) (omega arith)) (h j (omega arith) (omega arith)) in
        by_place (λ k. i ≤ k → k < length ys → v ≤ at ys k) i j (λ low below. both.0)
          (λ low below. both.1)
          (λ k ni nj low below.
            omega (arith, s.others k ni nj, h k low (omega (arith, s.sized)))) in
    let rest = sweep-Swept left i (suc j) ys (omega arith) (omega (arith, s.sized)) below_next in
    record {
      sized = rest.sized ∙ s.sized;
      before = λ k h. rest.before k h ∙ s.others k (omega arith) (omega arith);
      least = λ k h below. rest.least k h (omega (arith, s.sized));
      bounds = λ v h k low below. rest.bounds v (bounds_next v h) k low (omega (arith, s.sized));
      counts = λ p. rest.counts p ∙ s.counts p;
    }

-- Sorted up to place `i`, and nothing after it is less.
abbrev pub SortedTo : ℕ → List ℕ → Type 0
SortedTo i xs = (a b : ℕ) → a < i → a ≤ b → b < length xs → at xs a ≤ at xs b

sweep-SortedTo :
    (i : ℕ) (xs ys : List ℕ) → i < length xs → SortedTo i xs → Swept i xs ys → SortedTo (suc i) ys
sweep-SortedTo i xs ys below sorted s a b h le lim = elim (Bool-cases (a == i)) [
  | inl e ↦
      let same : a ≡ i = (==_iff a i).0 e in
      subst (λ k. at ys k ≤ at ys b) (sym same) (s.least b (omega arith) (omega (arith, s.sized)))
  | inr ne ↦
      let apart : a ≢ i = λ same. cc (ne, (==_iff a i).1 same) in
      let less : a < i = omega (arith, apart) in
      let bound = s.bounds (at xs a) (λ k lo hi. sorted a k less (omega arith) hi) in
      elim (Bool-cases (ltb b i)) [
        | inl early ↦
            let early' : b < i = ground (arith, early) in
            omega (
              arith,
              s.before a less,
              s.before b early',
              sorted a b less le (omega (arith, s.sized)),
            )
        | inr late ↦
            let late' : i ≤ b = ground (arith, late) in
            omega (arith, s.before a less, bound b late' (omega (arith, s.sized)))
      ]
]

pub sort_from-SortedTo :
    (left i : ℕ) (xs : List ℕ)
    → left + i ≡ length xs
    → SortedTo i xs
    → let ys = sort_from left i xs in
      (length ys ≡ length xs) × SortedTo (length xs) ys × ((p : ℕ → Bool) → count p ys ≡ count p xs)
unfolding sort_from
sort_from-SortedTo zero i xs size sorted =
    (refl, λ a b h le below. sorted a b (omega arith) le below, λ p. refl)
sort_from-SortedTo (suc left) i xs size sorted =
    let ys = sweep left i (suc i) xs in
    let s =
      sweep-Swept left i (suc i) xs (omega arith) (omega arith)
        (λ k h below. let same : i ≡ k = omega arith in omega (arith, ap (at xs) same)) in
    let next = sweep-SortedTo i xs ys (omega arith) sorted s in
    let (sized, done, counts) = sort_from-SortedTo left (suc i) ys (omega (arith, s.sized)) next in
    (
      sized ∙ s.sized,
      λ a b h le below. done a b (omega (arith, s.sized)) le below,
      λ p. counts p ∙ s.counts p,
    )
