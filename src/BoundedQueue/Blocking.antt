-- ===== src/BoundedQueue/Blocking.antt =====
-- Waiting and shutdown in include/ratehub/bounded_queue.hpp.
use mathlib.Core.Option
use ratehub.Prelude.{
  ℕ, zero, suc, ◌+◌, ◌<◌, ◌≡◌, ◌≢◌, refl, sym, ap, ◌-◌, ◌%◌, true, false, Bool-cases, inl, inr,
  Option, none, some, List, [], ◌∷◌, arith, ◌==◌, get_or,
}
use ratehub.Circular.{window}
use ratehub.BoundedQueue.{BoundedQueue, waits, returns, push, pop, close}
use ratehub.BoundedQueue.Refine.{IsQueue, view, pop-IsQueue, window_of_ne_zero}

module _ {A : Type 0} (capacity : ℕ) (blank : A) where
  -- The close wakes both sides: no call waits on a closed queue, and a push stores nothing.
  close-wakes :
      (q : BoundedQueue A) (x : A)
      → (push capacity (close q) x ≡ returns false (close q))
        × (pop capacity blank (close q) ≢ waits)
  unfolding push pop close
  close-wakes q x = (refl, ground arith)

  -- The loop of a consumer: pop until the queue reports its end. `none` is a wait, or too little fuel.
  unfoldable pub drain : ℕ → BoundedQueue A → Option (List A)
  drain zero q = none
  drain (suc fuel) q = elim (pop capacity blank q) [
    | waits ↦ none
    | returns none q' ↦ some []
    | returns (some x) q' ↦ Option.map (λ xs. x ∷ xs) (drain fuel q')
  ]

  abbrev advanced : BoundedQueue A → BoundedQueue A
  advanced q = record q { head = (q.head + 1) % capacity; size = q.size - 1 }

  pop-end :
      (q : BoundedQueue A) → q.closed ≡ true → q.size ≡ 0 → pop capacity blank q ≡ returns none q
  unfolding pop
  pop-end q c e = ground arith

  pop-next :
      (q : BoundedQueue A)
      → q.size ≢ 0
      → pop capacity blank q ≡ returns (some (get_or q.slots q.head blank)) (advanced q)
  unfolding pop
  pop-next q e = ground arith

  -- After the close a consumer still receives every queued element, oldest first, and then the end: it
  -- never waits, and as many pops as there are elements and one more are enough.
  pub drain-contents :
      (fuel : ℕ) (q : BoundedQueue A)
      → IsQueue capacity q
      → q.closed ≡ true
      → q.size < fuel
      → drain fuel q ≡ some (view capacity blank q).items
  unfolding drain
  drain-contents zero q v c h = absurd (omega arith)
  drain-contents (suc fuel) q v c h = elim (Bool-cases (q.size == 0)) [
    | inl e ↦
        let empty : q.size ≡ 0 = ground arith in
        rw (pop-end q c empty, drain)
          (ap (λ n. some (window blank q.slots capacity q.head n)) (sym empty))
    | inr e ↦
        let some_left : q.size ≢ 0 = ground arith in
        let rest =
          drain-contents fuel (advanced q)
            (pop-IsQueue capacity blank q v _ (advanced q) (pop-next q some_left)) c
            (omega arith) in
        rw (pop-next q some_left, drain, rest)
          (ap some (sym (window_of_ne_zero capacity blank q v some_left)))
  ]
