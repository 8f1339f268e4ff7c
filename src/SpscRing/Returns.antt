-- ===== src/SpscRing/Returns.antt =====
-- What a successful call of include/ratehub/spsc_ring.hpp has done to the waiting values.
use ratehub.Prelude.{ℕ, ◌≡◌, true, [], ◌∷◌, ◌++◌, arith}
use ratehub.SpscRing.{SpscRing, try_push, try_pop}
use ratehub.SpscRing.Queue.{enqueue, dequeue}
use ratehub.SpscRing.Refine.{IsRing, contents, try_push-refines, try_pop-refines}

module _ {A : Type 0} (k : ℕ) (blank : A) (r : SpscRing A) (v : IsRing k r) where
  pub try_push_stored :
      (x : A)
      → (try_push k r x).0 ≡ true
      → contents k blank (try_push k r x).1 ≡ contents k blank r ++ (x ∷ [])
  unfolding enqueue
  try_push_stored x h = ground (arith, try_push-refines k blank r x v)

  pub try_pop_taken :
      (out : A)
      → (try_pop k blank r out).0 ≡ true
      → contents k blank r ≡ (try_pop k blank r out).1 ∷ contents k blank (try_pop k blank r out).2
  unfolding dequeue
  try_pop_taken out h = ground (arith, try_pop-refines k blank r out v)
