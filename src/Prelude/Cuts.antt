-- ===== src/Prelude/Cuts.antt =====
-- First parts of lists, and of lists put together.
use Prim.Native.Nat.{ℕ, zero, suc, ◌-◌, ◌≤◌}
use mathlib.Core.Path.{◌≡◌, refl, ap, ◌∙◌}
use mathlib.Core.List.{List, [], ◌∷◌, ◌++◌}
use native.Mathlib.Omega.{arith}
use ratehub.Prelude.Tests.{◌==◌, ==_refl, if◌then◌else◌}
use ratehub.Prelude.Lists.{length, take}

module _ {ℓ} {A : Type ℓ} where
  pub take_short : (n : ℕ) (xs : List A) → length xs ≤ n → take n xs ≡ xs
  take_short zero [] h = refl
  take_short zero (x ∷ xs) h = absurd (omega arith)
  take_short (suc n) [] h = refl
  take_short (suc n) (x ∷ xs) h = ap (λ t. x ∷ t) (take_short n xs (omega arith))

  pub take_full : (n : ℕ) (xs ys : List A) → n ≤ length xs → take n (xs ++ ys) ≡ take n xs
  take_full zero xs ys h = refl
  take_full (suc n) [] ys h = absurd (omega arith)
  take_full (suc n) (x ∷ xs) ys h = ap (λ t. x ∷ t) (take_full n xs ys (omega arith))

  pub take_room :
      (n : ℕ) (xs ys : List A) → length xs ≤ n → xs ++ take (n - length xs) ys ≡ take n (xs ++ ys)
  take_room n [] ys h = let e : n - 0 ≡ n = omega arith in ap (λ m. take m ys) e
  take_room zero (x ∷ xs) ys h = absurd (omega arith)
  take_room (suc n) (x ∷ xs) ys h =
      let e : suc n - suc (length xs) ≡ n - length xs = omega arith in
      ap (λ m. x ∷ (xs ++ take m ys)) e ∙ ap (λ t. x ∷ t) (take_room n xs ys (omega arith))

  pub take-take_append : (n : ℕ) (xs ys : List A) → take n (take n xs ++ ys) ≡ take n (xs ++ ys)
  take-take_append zero xs ys = refl
  take-take_append (suc n) [] ys = refl
  take-take_append (suc n) (x ∷ xs) ys = ap (λ t. x ∷ t) (take-take_append n xs ys)

  pub length-take-le : (n : ℕ) (xs : List A) → length (take n xs) ≤ n
  length-take-le zero xs = omega arith
  length-take-le (suc n) [] = omega arith
  length-take-le (suc n) (x ∷ xs) = omega (arith, length-take-le n xs)

-- Without the first element that is `n`.
unfoldable pub drop_one : ℕ → List ℕ → List ℕ
drop_one n [] = []
drop_one n (m ∷ ms) = let rest = drop_one n ms in if n == m then ms else m ∷ rest

pub drop_one_self : (n : ℕ) (ns : List ℕ) → drop_one n (n ∷ ns) ≡ ns
unfolding drop_one
drop_one_self n ns = rw (==_refl n) refl
