-- ===== src/BoundedQueue/Schedule.antt =====
-- Calls of several threads on the queue of include/ratehub/bounded_queue.hpp. The mutex puts the calls
-- into one order; a call that waits gives the mutex up, and changes nothing until it is tried again.
use ratehub.Prelude.{ℕ, ◌≡◌, refl, ap, ◌∙◌, Bool, true, Option, List, [], ◌∷◌}
use ratehub.BoundedQueue.{BoundedQueue, Outcome, waits, returns, push, pop, close}
use ratehub.BoundedQueue.Refine.{
  Fifo, push_fifo, pop_fifo, view_outcome, IsQueue, view, push-IsQueue, pop-IsQueue, push-refines,
  pop-refines,
}

pub data Call (A : Type 0) : Type 0 where
  pushes : A → Call A
  pops closes : Call A

pub data Reply (A : Type 0) : Type 0 where
  waited : Reply A
  pushed : Bool → Reply A
  popped : Option A → Reply A
  closed : Reply A

module _ {A S B : Type 0} (reply : B → Reply A) (rest : S → List (Reply A)) where
  abbrev pub continue : Outcome S B → S → List (Reply A)
  continue waits s = waited ∷ rest s
  continue (returns b t) s = reply b ∷ rest t

module _ {A : Type 0} (capacity : ℕ) (blank : A) where
  -- What the calls return, one after the other.
  unfoldable pub run_calls : BoundedQueue A → List (Call A) → List (Reply A)
  run_calls q [] = []
  run_calls q (pushes x ∷ calls) = continue pushed (λ q'. run_calls q' calls) (push capacity q x) q
  run_calls q (pops ∷ calls) = continue popped (λ q'. run_calls q' calls) (pop capacity blank q) q
  run_calls q (closes ∷ calls) = closed ∷ run_calls (close q) calls

  -- The same on the queue that the header describes.
  unfoldable pub run_fifo : Fifo A → List (Call A) → List (Reply A)
  run_fifo f [] = []
  run_fifo f (pushes x ∷ calls) =
      continue pushed (λ f'. run_fifo f' calls) (push_fifo capacity f x) f
  run_fifo f (pops ∷ calls) = continue popped (λ f'. run_fifo f' calls) (pop_fifo f) f
  run_fifo f (closes ∷ calls) = closed ∷ run_fifo (record f { closed = true }) calls

  continue-view :
      {B : Type 0} (reply : B → Reply A) (go : BoundedQueue A → List (Reply A))
      (go' : Fifo A → List (Reply A)) (o : Outcome (BoundedQueue A) B) (q : BoundedQueue A)
      → go q ≡ go' (view capacity blank q)
      → ((b : B) (q' : BoundedQueue A) → o ≡ returns b q' → go q' ≡ go' (view capacity blank q'))
      → continue reply go o q
        ≡ continue reply go' (view_outcome (view capacity blank) o) (view capacity blank q)
  continue-view reply go go' waits q same later = ap (λ l. waited ∷ l) same
  continue-view reply go go' (returns b q') q same later = ap (λ l. reply b ∷ l) (later b q' refl)

  close-IsQueue : (q : BoundedQueue A) → IsQueue capacity q → IsQueue capacity (close q)
  unfolding close
  close-IsQueue q v = record { storage = v.storage; head_in = v.head_in; size_in = v.size_in }

  -- From any valid queue, no sequence of calls, in whatever order the threads make them, tells the queue
  -- from a bounded first-in-first-out queue of the same elements: which calls wait, what each of the
  -- others returns, and what a close does to the calls after it.
  pub run_calls-refines :
      (q : BoundedQueue A) (calls : List (Call A))
      → IsQueue capacity q
      → run_calls q calls ≡ run_fifo (view capacity blank q) calls
  unfolding run_calls run_fifo close
  run_calls-refines q [] v = refl
  run_calls-refines q (pushes x ∷ calls) v =
      continue-view pushed (λ q'. run_calls q' calls) (λ f. run_fifo f calls) (push capacity q x) q
        (run_calls-refines q calls v)
        (λ b q' e. run_calls-refines q' calls (push-IsQueue capacity blank q v x b q' e))
      ∙ ap (λ o. continue pushed (λ f. run_fifo f calls) o (view capacity blank q))
          (push-refines capacity blank q v x)
  run_calls-refines q (pops ∷ calls) v =
      continue-view popped (λ q'. run_calls q' calls) (λ f. run_fifo f calls) (pop capacity blank q)
        q (run_calls-refines q calls v)
        (λ b q' e. run_calls-refines q' calls (pop-IsQueue capacity blank q v b q' e))
      ∙ ap (λ o. continue popped (λ f. run_fifo f calls) o (view capacity blank q))
          (pop-refines capacity blank q v)
  run_calls-refines q (closes ∷ calls) v =
      ap (λ l. closed ∷ l) (run_calls-refines (close q) calls (close-IsQueue q v))
