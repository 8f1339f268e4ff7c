-- ===== src/TripleBuffer/Safety.antt =====
-- What holds whenever a writer and a reader of include/ratehub/triple_buffer.hpp run side by side.
use Prim.Native.Nat.{bit_or}
use ratehub.Prelude.{
  ℕ, zero, suc, ◌+◌, ◌%◌, ◌≤◌, ◌<◌, ◌≡◌, ◌≢◌, ◌∙◌, refl, sym, ap, subst, true, false, Bool-cases,
  inl, inr, Option, none, some, length, get_or, length-set, get_or-set_self, get_or-set_ne, arith,
}
use ratehub.Prelude.Words.{u32}
use ratehub.Prelude.Bits.{bit_and_mask, bit_and_pow}
use ratehub.TripleBuffer.{
  TripleBuffer, fill, write_slot, read_slot, publish, is_fresh, swap_read, consume, fresh,
}
use ratehub.TripleBuffer.Register.{Register, offer, take}
use ratehub.TripleBuffer.Threads.{
  Reader, Threads, Step, Reach, start, later, store, publishes, consume_none, consume_load,
  consume_swap,
}

-- The three indexes are a permutation of 0, 1 and 2.
pub record AreDistinct {A : Type 0} (b : TripleBuffer A) : Type 0 where
  pub storage : length b.slots ≡ 3
  pub write_in : b.write < 3
  pub read_in : b.read < 3
  pub middle_in : b.middle % 4 < 3
  pub middle_bits : b.middle < 8
  pub write_read : b.write ≢ b.read
  pub write_middle : b.write ≢ b.middle % 4
  pub read_middle : b.read ≢ b.middle % 4

module _ {A : Type 0} (blank : A) where
  -- The unread value lies in the middle slot, which is marked exactly while there is one.
  abbrev Offered : TripleBuffer A → Option A → Type 0
  Offered b none = b.middle < 4
  Offered b (some x) = (4 ≤ b.middle) × (get_or b.slots (b.middle % 4) blank ≡ x)

  abbrev Seen : TripleBuffer A → Reader → Type 0
  Seen b Reader.idle = Unit {0}
  Seen b Reader.fresh_seen = 4 ≤ b.middle

  pub record Inv (s : Threads A) : Type 0 where
    pub distinct : AreDistinct s.buffer
    pub held : read_slot blank s.buffer ≡ s.register.front
    pub offered : Offered s.buffer s.register.latest
    pub seen : Seen s.buffer s.reader

fresh_or : (w : ℕ) → w < 3 → bit_or (u32 w) fresh ≡ w + 4
fresh_or zero h = refl
fresh_or (suc zero) h = refl
fresh_or (suc (suc zero)) h = refl
fresh_or (suc (suc (suc w))) h = absurd (omega arith)

module _ {A : Type 0} (b : TripleBuffer A) (v : AreDistinct b) where
  publish-AreDistinct : AreDistinct (publish b)
  unfolding publish
  publish-AreDistinct = ground (arith, fresh_or b.write v.write_in, bit_and_mask 2 b.middle, v)

  swap_read-AreDistinct : AreDistinct (swap_read b)
  unfolding swap_read
  swap_read-AreDistinct = ground (arith, bit_and_mask 2 b.middle, v)

  fill-AreDistinct : (x : A) → AreDistinct (fill b x)
  unfolding fill
  fill-AreDistinct x = ground (arith, length-set b.slots b.write x, v)

  is_fresh-lt : is_fresh b ≡ true → 4 ≤ b.middle
  unfolding is_fresh
  is_fresh-lt h = ground (arith, bit_and_pow 2 b.middle, v)

  not_fresh-lt : is_fresh b ≡ false → b.middle < 4
  unfolding is_fresh
  not_fresh-lt h = ground (arith, bit_and_pow 2 b.middle, v)

module _ {A : Type 0} (blank : A) where
  module _ (b : TripleBuffer A) (v : AreDistinct b) where
    -- The writer's stores reach neither the reader's slot nor the one on offer.
    fill-held : (x : A) → read_slot blank (fill b x) ≡ read_slot blank b
    unfolding fill read_slot
    fill-held x = get_or-set_ne b.slots b.write b.read x blank v.write_read

    fill-Offered : (x : A) (o : Option A) → Offered blank b o → Offered blank (fill b x) o
    unfolding fill
    fill-Offered x none h = h
    fill-Offered x (some y) (bit, e) =
        (bit, get_or-set_ne b.slots b.write (b.middle % 4) x blank v.write_middle ∙ e)

    fill-Seen : (x : A) (r : Reader) → Seen blank b r → Seen blank (fill b x) r
    unfolding fill
    fill-Seen x Reader.idle h = tt
    fill-Seen x Reader.fresh_seen h = h

    publish-Offered :
        (r : Register A) → Offered blank (publish b) (offer r (write_slot blank b)).latest
    unfolding publish write_slot offer
    publish-Offered r =
        let e : bit_or (u32 b.write) fresh % 4 ≡ b.write =
          omega (arith, fresh_or b.write v.write_in, v.write_in) in
        (omega (arith, fresh_or b.write v.write_in), ap (λ i. get_or b.slots i blank) e)

    publish-held :
        (r : Register A)
        → read_slot blank b ≡ r.front
        → read_slot blank (publish b) ≡ (offer r (write_slot blank b)).front
    unfolding publish read_slot offer
    publish-held r h = h

    publish-Seen : (r : Reader) → Seen blank (publish b) r
    unfolding publish
    publish-Seen Reader.idle = tt
    publish-Seen Reader.fresh_seen = omega (arith, fresh_or b.write v.write_in)

    -- The exchange gives the reader the value on offer.
    swap_read-take :
        (front : A) (o : Option A)
        → Offered blank b o
        → 4 ≤ b.middle
        → let r = (take (record { front = front; latest = o })).1 in
          (read_slot blank (swap_read b) ≡ r.front) × Offered blank (swap_read b) r.latest
    unfolding take read_slot swap_read
    swap_read-take front none h bit = absurd (omega arith)
    swap_read-take front (some x) (bit', e) bit =
        (ap (λ i. get_or b.slots i blank) (bit_and_mask 2 b.middle) ∙ e, omega (arith, v.read_in))

  Step-Inv : {s t : Threads A} → Step blank s t → Inv blank s → Inv blank t
  Step-Inv {s} (store x same) inv = subst (Inv blank) (sym same) record {
    distinct = fill-AreDistinct s.buffer inv.distinct x;
    held = fill-held s.buffer inv.distinct x ∙ inv.held;
    offered = fill-Offered s.buffer inv.distinct x s.register.latest inv.offered;
    seen = fill-Seen s.buffer inv.distinct x s.reader inv.seen;
  }
  Step-Inv {s} (publishes same) inv = subst (Inv blank) (sym same) record {
    distinct = publish-AreDistinct s.buffer inv.distinct;
    held = publish-held s.buffer inv.distinct s.register inv.held;
    offered = publish-Offered s.buffer inv.distinct s.register;
    seen = publish-Seen s.buffer inv.distinct s.reader;
  }
  Step-Inv (consume_none e clear same) inv = subst (Inv blank) (sym same) inv
  Step-Inv {s} (consume_load e set_bit same) inv = subst (Inv blank) (sym same) record {
    distinct = inv.distinct;
    held = inv.held;
    offered = inv.offered;
    seen = is_fresh-lt s.buffer inv.distinct set_bit;
  }
  Step-Inv {s} (consume_swap e same) inv =
      let (front, latest) =
        swap_read-take s.buffer inv.distinct s.register.front s.register.latest inv.offered
          (subst (Seen blank s.buffer) e inv.seen) in
      subst (Inv blank) (sym same) record {
        distinct = swap_read-AreDistinct s.buffer inv.distinct;
        held = front;
        offered = latest;
        seen = tt;
      }

  Reach-Inv : {s : Threads A} → Reach blank s → Inv blank s
  unfolding read_slot
  Reach-Inv start = record { distinct = omega arith; held = refl; offered = omega arith; seen = tt }
  Reach-Inv (later r st) = Step-Inv st (Reach-Inv r)

  -- In every interleaving the writer, the reader and the middle own three different slots.
  pub triple_exclusive :
      (s : Threads A)
      → Reach blank s
      → (s.buffer.write ≢ s.buffer.read)
        × (s.buffer.write ≢ s.buffer.middle % 4)
        × (s.buffer.read ≢ s.buffer.middle % 4)
  triple_exclusive s r =
      let d = (Reach-Inv r).distinct in (d.write_read, d.write_middle, d.read_middle)

  -- What the writer has stored is what it publishes next.
  pub write_slot-fill :
      (s : Threads A) (x : A) → Reach blank s → write_slot blank (fill s.buffer x) ≡ x
  unfolding write_slot fill
  write_slot-fill s x r =
      let d = (Reach-Inv r).distinct in
      get_or-set_self s.buffer.slots s.buffer.write x blank (omega (arith, d.storage, d.write_in))

  consume-take_cases :
      (b : TripleBuffer A) (front : A) (o : Option A)
      → AreDistinct b
      → read_slot blank b ≡ front
      → Offered blank b o
      → let r = take (record { front = front; latest = o }) in
        ((consume b).0 ≡ r.0) × (read_slot blank (consume b).1 ≡ r.1.front)
  unfolding consume take
  consume-take_cases b front none v h w = elim (Bool-cases (is_fresh b)) [
    | inl e ↦ absurd (omega (arith, is_fresh-lt b v e))
    | inr e ↦ rw e (refl, h)
  ]
  consume-take_cases b front (some x) v h w = elim (Bool-cases (is_fresh b)) [
    | inl e ↦ rw e (refl, (swap_read-take b v front (some x) w (is_fresh-lt b v e)).0)
    | inr e ↦ absurd (omega (arith, not_fresh-lt b v e))
  ]

  -- In every interleaving the reader sees the register: the slot that it reads holds the value of its
  -- last successful consume, and a consume now succeeds exactly if a value was published since, and
  -- then moves to the latest such value.
  pub triple_register :
      (s : Threads A)
      → Reach blank s
      → (read_slot blank s.buffer ≡ s.register.front)
        × ((consume s.buffer).0 ≡ (take s.register).0)
        × (read_slot blank (consume s.buffer).1 ≡ (take s.register).1.front)
  triple_register s r =
      let inv = Reach-Inv r in
      let (flag, front) =
        consume-take_cases s.buffer s.register.front s.register.latest inv.distinct inv.held
          inv.offered in
      (inv.held, flag, front)
