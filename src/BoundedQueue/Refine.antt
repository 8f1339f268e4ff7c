-- ===== src/BoundedQueue/Refine.antt =====
-- The calls of include/ratehub/bounded_queue.hpp are those of a bounded first-in-first-out queue.
use native.Mathlib.Decide.{dec_lt}
use native.Mathlib.Nat.{mod-eq_of_lt, mod-eq-sub-mod}
use ratehub.Prelude.{
  ℕ, suc, ◌+◌, ◌-◌, ◌%◌, ◌≤◌, ◌<◌, ◌≡◌, ◌≢◌, ◌∙◌, sym, ap, Bool, true, false, Option, none, some,
  List, [], ◌∷◌, ◌++◌, length, get_or, length-set, length-replicate, arith, ◌==◌, if◌then◌else◌,
}
use ratehub.Circular.{used, mod-after, window, length-window, window-write}
use ratehub.BoundedQueue.{BoundedQueue, Outcome, waits, returns, push, pop, new_queue}

-- The queue that the header describes.
pub record Fifo (A : Type 0) : Type 0 where
  pub items : List A
  pub closed : Bool

module _ {A : Type 0} where
  unfoldable pub push_fifo : ℕ → Fifo A → A → Outcome (Fifo A) Bool
  push_fifo capacity f x =
      if f.closed
      then returns false f
      else (if length f.items == capacity
          then waits
          else returns true (record f { items = f.items ++ (x ∷ []) }))

  pop_items : List A → Bool → Outcome (Fifo A) (Option A)
  pop_items [] closed =
      if closed then returns none (record { items = []; closed = closed }) else waits
  pop_items (x ∷ rest) closed = returns (some x) (record { items = rest; closed = closed })

  unfoldable pub pop_fifo : Fifo A → Outcome (Fifo A) (Option A)
  unfolding pop_items
  pop_fifo f = pop_items f.items f.closed

abbrev pub view_outcome : {S T B : Type 0} → (S → T) → Outcome S B → Outcome T B
view_outcome f waits = waits
view_outcome f (returns b s) = returns b (f s)

pub record IsQueue {A : Type 0} (capacity : ℕ) (q : BoundedQueue A) : Type 0 where
  pub storage : length q.slots ≡ capacity
  pub head_in : q.head < capacity
  pub size_in : q.size ≤ capacity

module _ {A : Type 0} (capacity : ℕ) (blank : A) where
  abbrev pub view : BoundedQueue A → Fifo A
  view q = record { items = window blank q.slots capacity q.head q.size; closed = q.closed }

  pub new_queue-IsQueue : 0 < capacity → IsQueue capacity (new_queue capacity blank)
  new_queue-IsQueue h = record {
    storage = length-replicate capacity blank;
    head_in = h;
    size_in = omega arith;
  }

  -- `(head_ + size_) % Capacity` is the first free slot.
  tail_lem :
      (h n : ℕ)
      → h < capacity
      → n < capacity
      → ((h + n) % capacity < capacity) × (used capacity h ((h + n) % capacity) ≡ n)
  tail_lem h n hh hn = elim (dec_lt (h + n) capacity) [
    | yes p ↦ rw (mod-eq_of_lt p) (ground arith, ground arith)
    | no p ↦
        rw
          (
            mod-eq-sub-mod {n = h + n} {m = capacity} (omega arith),
            mod-eq_of_lt {n = h + n - capacity} {m = capacity} (omega arith),
          )
          (ground arith, ground arith)
  ]

  module _ (q : BoundedQueue A) (v : IsQueue capacity q) where
    -- Every call that returns leaves the queue valid.
    pub push-IsQueue :
        (x : A) (done : Bool) (q' : BoundedQueue A)
        → push capacity q x ≡ returns done q'
        → IsQueue capacity q'
    unfolding push
    push-IsQueue x done q' h =
        ground (arith, v, length-set q.slots ((q.head + q.size) % capacity) x)

    pub pop-IsQueue :
        (x : Option A) (q' : BoundedQueue A)
        → pop capacity blank q ≡ returns x q'
        → IsQueue capacity q'
    unfolding pop
    pop-IsQueue x q' h = ground (arith, v)

    -- `push` waits exactly on a full open queue, refuses once it is closed, and otherwise appends.
    pub push-refines :
        (x : A) → view_outcome view (push capacity q x) ≡ push_fifo capacity (view q) x
    unfolding push push_fifo
    push-refines x = ground (
      arith,
      tail_lem q.head q.size,
      length-window blank q.slots capacity q.head q.size,
      window-write blank q.slots capacity q.size q.head ((q.head + q.size) % capacity) x,
    )

    pub window_of_ne_zero :
        q.size ≢ 0
        → window blank q.slots capacity q.head q.size
          ≡ get_or q.slots q.head blank
            ∷ window blank q.slots capacity ((q.head + 1) % capacity) (q.size - 1)
    window_of_ne_zero ne =
        let e : q.size ≡ suc (q.size - 1) = omega arith in
        ap (window blank q.slots capacity q.head) e
        ∙ ap (λ i. get_or q.slots q.head blank ∷ window blank q.slots capacity i (q.size - 1))
            (sym (mod-after capacity q.head v.head_in))

    window_of_zero : q.size ≡ 0 → window blank q.slots capacity q.head q.size ≡ []
    window_of_zero e = ap (window blank q.slots capacity q.head) e

    -- `pop` waits exactly on an empty open queue, reports the end of an empty closed one, and otherwise
    -- takes the oldest element, also after the close.
    pub pop-refines : view_outcome view (pop capacity blank q) ≡ pop_fifo (view q)
    unfolding pop pop_fifo
    pop-refines = ground (arith, window_of_ne_zero, window_of_zero)
