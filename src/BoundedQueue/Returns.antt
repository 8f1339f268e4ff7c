-- ===== src/BoundedQueue/Returns.antt =====
-- What a call of include/ratehub/bounded_queue.hpp that returns has done to the waiting elements.
use ratehub.Prelude.{ℕ, ◌≡◌, sym, ap, ◌∙◌, true, false, none, some, [], ◌∷◌, ◌++◌, arith}
use ratehub.BoundedQueue.{BoundedQueue, returns, push, pop}
use ratehub.BoundedQueue.Refine.{
  IsQueue, view, view_outcome, push_fifo, pop_fifo, push-refines, pop-refines,
}

module _ {A : Type 0} (capacity : ℕ) (blank : A) (q : BoundedQueue A) (v : IsQueue capacity q) where
  pub push_stored :
      (x : A) (q' : BoundedQueue A)
      → push capacity q x ≡ returns true q'
      → ((view capacity blank q').items ≡ (view capacity blank q).items ++ (x ∷ []))
        × (q'.closed ≡ q.closed)
  unfolding push_fifo
  push_stored x q' h =
      let same =
        sym (ap (view_outcome (view capacity blank)) h) ∙ push-refines capacity blank q v x in
      ground (arith, same)

  pub push_refused :
      (x : A) (q' : BoundedQueue A)
      → push capacity q x ≡ returns false q'
      → (q.closed ≡ true) × (q' ≡ q)
  unfolding push
  push_refused x q' h = ground arith

  pub pop_taken :
      (x : A) (q' : BoundedQueue A)
      → pop capacity blank q ≡ returns (some x) q'
      → ((view capacity blank q).items ≡ x ∷ (view capacity blank q').items)
        × (q'.closed ≡ q.closed)
  unfolding pop_fifo
  pop_taken x q' h =
      let same = sym (ap (view_outcome (view capacity blank)) h) ∙ pop-refines capacity blank q v in
      ground (arith, same)

  pub pop_ended :
      (q' : BoundedQueue A)
      → pop capacity blank q ≡ returns none q'
      → ((view capacity blank q).items ≡ []) × (q.closed ≡ true)
  unfolding pop_fifo
  pop_ended q' h =
      let same = sym (ap (view_outcome (view capacity blank)) h) ∙ pop-refines capacity blank q v in
      ground (arith, same)

  pub pop_ended_same : (q' : BoundedQueue A) → pop capacity blank q ≡ returns none q' → q' ≡ q
  unfolding pop
  pop_ended_same q' h = ground arith
