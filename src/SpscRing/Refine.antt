-- ===== src/SpscRing/Refine.antt =====
-- The operations of include/ratehub/spsc_ring.hpp implement a bounded queue of `Capacity - 1` values.
use native.Mathlib.Nat.{mod-eq_of_lt}
use native.Mathlib.Decide.{dec_lt}
use ratehub.Prelude.{
  ℕ, ◌+◌, ◌-◌, ◌*◌, ◌%◌, ◌^◌, ◌≤◌, ◌<◌, ◌≡◌, ◌∙◌, refl, sym, List, [], ◌∷◌, length, length-set,
  length-replicate, arith,
}
use ratehub.Prelude.Words.{u32}
use ratehub.Prelude.Bits.{bit_and_mask, pow_factor, mod_below}
use ratehub.SpscRing.{SpscRing, empty_ring, try_push, try_pop, occupied}
use ratehub.Circular.{used, window, length-window, window-read, window-write}
use ratehub.SpscRing.Index.{pow_le, next_index-after}
use ratehub.SpscRing.Queue.{enqueue, dequeue, Call, push, pop, Reply, pushed, popped, run_queue}

module _ {A : Type 0} (k : ℕ) where
  pub record IsRing (r : SpscRing A) : Type 0 where
    pub word : k < 32
    pub two : 2 ≤ 2 ^ k
    pub storage : length r.slots ≡ 2 ^ k
    pub write_in : r.write < 2 ^ k
    pub read_in : r.read < 2 ^ k

  -- The values that wait for the consumer, oldest first.
  abbrev pub contents : A → SpscRing A → List A
  contents blank r = window blank r.slots (2 ^ k) r.read (used (2 ^ k) r.read r.write)

-- The wrapped difference of two indexes, under the mask, is their distance round the ring.
occupied-mod :
    (k r w : ℕ) → k < 32 → r < 2 ^ k → w < 2 ^ k → u32 (w + 2 ^ 32 - r) % 2 ^ k ≡ used (2 ^ k) r w
occupied-mod k r w h hr hw =
    let (m, positive, same) = pow_factor k (32 - k) in
    let e : k + (32 - k) ≡ 32 = omega arith in
    let same' : 2 ^ 32 ≡ m * 2 ^ k = rw (← same, e) in
    elim (dec_lt w r) [
      | yes p ↦
          let u : u32 (w + 2 ^ 32 - r) ≡ m * 2 ^ k - (r - w) = omega (arith, pow_le k h) in
          rw (u, mod_below m (2 ^ k) (r - w) (omega arith) (omega arith) positive) (ground arith)
      | no p ↦
          let u : u32 (w + 2 ^ 32 - r) ≡ w - r = omega (arith, pow_le k h) in
          rw (u, mod-eq_of_lt {n = w - r} {m = 2 ^ k} (omega arith)) (ground arith)
    ]

module _ {A : Type 0} (k : ℕ) (blank : A) where
  pub empty_ring-IsRing : 2 ≤ 2 ^ k → k < 32 → IsRing k (empty_ring k blank)
  unfolding empty_ring
  empty_ring-IsRing two word = record {
    word = word;
    two = two;
    storage = length-replicate (2 ^ k) blank;
    write_in = omega arith;
    read_in = omega arith;
  }

  -- Both operations keep the indexes in range.
  pub try_push-IsRing : (r : SpscRing A) (x : A) → IsRing k r → IsRing k (try_push k r x).1
  unfolding try_push
  try_push-IsRing r x v =
      ground (arith, length-set r.slots r.write x, next_index-after k r.write v.word v.write_in)

  pub try_pop-IsRing : (r : SpscRing A) (out : A) → IsRing k r → IsRing k (try_pop k blank r out).2
  unfolding try_pop
  try_pop-IsRing r out v = ground (arith, next_index-after k r.read v.word v.read_in)

  -- `try_push` is the queue's push: refused exactly at `Capacity - 1` waiting values, and then the
  -- queue is the same; otherwise the value goes to the end.
  pub try_push-refines :
      (r : SpscRing A) (x : A)
      → IsRing k r
      → let (done, r') = try_push k r x in
        (done, contents k blank r') ≡ enqueue (2 ^ k - 1) (contents k blank r) x
  unfolding try_push enqueue
  try_push-refines r x v = ground (
    arith,
    next_index-after k r.write v.word v.write_in,
    length-window blank r.slots (2 ^ k) r.read (used (2 ^ k) r.read r.write),
    window-write blank r.slots (2 ^ k) (used (2 ^ k) r.read r.write) r.read r.write x,
  )

  pub try_pop-refines :
      (r : SpscRing A) (out : A)
      → IsRing k r
      → let (done, x, r') = try_pop k blank r out in
        (done, x, contents k blank r') ≡ dequeue (contents k blank r) out
  unfolding try_pop dequeue
  try_pop-refines r out v = ground (
    arith,
    next_index-after k r.read v.word v.read_in,
    window-read blank r.slots (2 ^ k) r.read r.write,
  )

  -- On a well-formed ring `occupied` counts the waiting values.
  occupied-contents : (r : SpscRing A) → IsRing k r → occupied k r ≡ length (contents k blank r)
  unfolding occupied
  occupied-contents r v =
      bit_and_mask k (u32 (r.write + 2 ^ 32 - r.read))
      ∙ occupied-mod k r.read r.write v.word v.read_in v.write_in
      ∙ sym (length-window blank r.slots (2 ^ k) r.read (used (2 ^ k) r.read r.write))

  unfoldable pub run_ring : SpscRing A → List (Call A) → List (Reply A)
  run_ring r [] = []
  run_ring r (push x ∷ calls) = let (done, r') = try_push k r x in pushed done ∷ run_ring r' calls
  run_ring r (pop out ∷ calls) =
      let (done, x, r') = try_pop k blank r out in popped done x ∷ run_ring r' calls

  -- From any well-formed ring, no sequence of whole calls tells the ring from the bounded queue of
  -- its contents.
  pub run_ring-refines :
      (r : SpscRing A) (calls : List (Call A))
      → IsRing k r
      → run_ring r calls ≡ run_queue (2 ^ k - 1) (contents k blank r) calls
  unfolding run_ring run_queue
  run_ring-refines r [] v = refl
  run_ring-refines r (push x ∷ calls) v =
      rw (
        run_ring-refines (try_push k r x).1 calls (try_push-IsRing r x v),
        ← try_push-refines r x v,
      )
  run_ring-refines r (pop out ∷ calls) v = rw (
    run_ring-refines (try_pop k blank r out).2 calls (try_pop-IsRing r out v),
    ← try_pop-refines r out v,
  )
