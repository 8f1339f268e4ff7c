-- ===== src/BoundedQueue.antt =====
-- include/ratehub/bounded_queue.hpp: the mutex queue between the two ingest threads. A call holds the
-- mutex for its whole body, so it is one step on the state; where the wait's predicate is false the
-- call blocks, and changes nothing until another call makes the predicate true.
pub mod Refine
pub mod Returns
pub mod Schedule
pub mod Blocking
mod Tests
use ratehub.Prelude.{
  ℕ, ◌+◌, ◌-◌, ◌%◌, Bool, true, false, ◌||◌, Option, none, some, List, get_or, set, replicate, ltb,
  ◌==◌, if◌then◌else◌,
}

pub record BoundedQueue {ℓ} (A : Type ℓ) : Type ℓ where
  pub slots : List A
  pub head : ℕ
  pub size : ℕ
  pub closed : Bool

-- A call that waits, or one that returns with the new state.
pub data Outcome {ℓ} (S : Type ℓ) (A : Type ℓ) : Type ℓ where
  waits : Outcome S A
  returns : A → S → Outcome S A

module _ {A : Type 0} where
  abbrev pub new_queue : ℕ → A → BoundedQueue A
  new_queue capacity blank = record {
    slots = replicate capacity blank;
    head = 0;
    size = 0;
    closed = false;
  }

  unfoldable pub push : ℕ → BoundedQueue A → A → Outcome (BoundedQueue A) Bool
  push capacity q value =
      if q.closed || ltb q.size capacity
      then (if q.closed
          then returns false q
          else returns true (record q {
            slots = set q.slots ((q.head + q.size) % capacity) value;
            size = q.size + 1;
          }))
      else waits

  unfoldable pub pop : ℕ → A → BoundedQueue A → Outcome (BoundedQueue A) (Option A)
  pop capacity blank q =
      if q.closed || ltb 0 q.size
      then (if q.size == 0
          then returns none q
          else returns (some (get_or q.slots q.head blank))
              (record q { head = (q.head + 1) % capacity; size = q.size - 1 }))
      else waits

  unfoldable pub close : BoundedQueue A → BoundedQueue A
  close q = record q { closed = true }
