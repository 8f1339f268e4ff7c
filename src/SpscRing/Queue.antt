-- ===== src/SpscRing/Queue.antt =====
-- The abstract queue that include/ratehub/spsc_ring.hpp promises: first in, first out, refusing a push
-- when it is full and a pop when it is empty.
use ratehub.Prelude.{ℕ, Bool, true, false, List, [], ◌∷◌, ◌++◌, length, ◌==◌, if◌then◌else◌}

-- The calls of the two sides, in the order in which they happen.
pub data Call {ℓ} (A : Type ℓ) : Type ℓ where
  push : A → Call A
  pop : A → Call A

-- What a call returns: the flag, and what it leaves in `out`.
pub data Reply {ℓ} (A : Type ℓ) : Type ℓ where
  pushed : Bool → Reply A
  popped : Bool → A → Reply A

module _ {ℓ} {A : Type ℓ} where
  unfoldable pub enqueue : ℕ → List A → A → Bool × List A
  enqueue bound q x = if length q == bound then (false, q) else (true, q ++ (x ∷ []))

  unfoldable pub dequeue : List A → A → Bool × A × List A
  dequeue [] out = (false, out, [])
  dequeue (x ∷ q) out = (true, x, q)

  unfoldable pub run_queue : ℕ → List A → List (Call A) → List (Reply A)
  run_queue bound q [] = []
  run_queue bound q (push x ∷ calls) =
      let (done, q') = enqueue bound q x in pushed done ∷ run_queue bound q' calls
  run_queue bound q (pop out ∷ calls) =
      let (done, x, q') = dequeue q out in popped done x ∷ run_queue bound q' calls
