-- ===== src/SpscRing/Safety.antt =====
-- What holds whenever a producer and a consumer of include/ratehub/spsc_ring.hpp run side by side.
use ratehub.Prelude.{
  ℕ, suc, ◌^◌, ◌≤◌, ◌<◌, ◌≡◌, ◌≢◌, ◌∙◌, refl, sym, ap, subst, List, [], ◌∷◌, ◌++◌, length, get_or,
  set, length-set, append_assoc, get_or-set_self, get_or-set_ne, arith,
}
use ratehub.SpscRing.{SpscRing, empty_ring, next_index}
use ratehub.Circular.{after, used, length-window, window-read, window-set_free, window-last}
use ratehub.SpscRing.Index.{next_index-after}
use ratehub.SpscRing.Refine.{IsRing, contents, empty_ring-IsRing}
use ratehub.SpscRing.Threads.{
  Producer, Consumer, Threads, Step, Reach, start, later, push_full, push_room, push_fill,
  push_publish, pop_empty, pop_ready, pop_copy, pop_release,
}

module _ {A : Type 0} (k : ℕ) (blank : A) where
  -- What a side knows of the ring from its own checks, whatever the other side does meanwhile.
  abbrev ProducerKnows : SpscRing A → Producer A → Type 0
  ProducerKnows r Producer.idle = Unit {0}
  ProducerKnows r (Producer.room x) = after (2 ^ k) r.write ≢ r.read
  ProducerKnows r (Producer.filled x) =
      (after (2 ^ k) r.write ≢ r.read) × (get_or r.slots r.write blank ≡ x)

  abbrev ConsumerKnows : SpscRing A → Consumer A → Type 0
  ConsumerKnows r Consumer.idle = Unit {0}
  ConsumerKnows r Consumer.ready = r.read ≢ r.write
  ConsumerKnows r (Consumer.taken x) = (r.read ≢ r.write) × (get_or r.slots r.read blank ≡ x)

  pub record Inv (s : Threads A) : Type 0 where
    pub ring : IsRing k s.ring
    pub producer : ProducerKnows s.ring s.producer
    pub consumer : ConsumerKnows s.ring s.consumer
    pub queue : s.pushed ≡ s.popped ++ contents k blank s.ring

  module _ (r : SpscRing A) (v : IsRing k r) where
    -- The producer's stores leave alone what the consumer knows, and the other way round.
    fill-ConsumerKnows :
        (x : A) (c : Consumer A)
        → ConsumerKnows r c
        → ConsumerKnows (record r { slots = set r.slots r.write x }) c
    fill-ConsumerKnows x Consumer.idle h = tt
    fill-ConsumerKnows x Consumer.ready h = h
    fill-ConsumerKnows x (Consumer.taken y) (ne, e) =
        (ne, get_or-set_ne r.slots r.write r.read x blank (λ q. ne (sym q)) ∙ e)

    publish-ConsumerKnows :
        (c : Consumer A)
        → after (2 ^ k) r.write ≢ r.read
        → ConsumerKnows r c
        → ConsumerKnows (record r { write = next_index k r.write }) c
    publish-ConsumerKnows Consumer.idle ne h = tt
    publish-ConsumerKnows Consumer.ready ne h =
        rw (next_index-after k r.write v.word v.write_in) (λ e. ne (sym e))
    publish-ConsumerKnows (Consumer.taken y) ne h =
        (rw (next_index-after k r.write v.word v.write_in) (λ e. ne (sym e)), h.1)

    release-ProducerKnows :
        (p : Producer A)
        → r.read ≢ r.write
        → ProducerKnows r p
        → ProducerKnows (record r { read = next_index k r.read }) p
    release-ProducerKnows Producer.idle ne h = tt
    release-ProducerKnows (Producer.room x) ne h =
        rw (next_index-after k r.read v.word v.read_in) (ground (arith, v.read_in, v.write_in))
    release-ProducerKnows (Producer.filled x) ne h = (
      rw (next_index-after k r.read v.word v.read_in) (ground (arith, v.read_in, v.write_in)),
      h.1,
    )

    fill-contents :
        (x : A) → contents k blank (record r { slots = set r.slots r.write x }) ≡ contents k blank r
    fill-contents x =
        window-set_free blank r.slots (2 ^ k) (used (2 ^ k) r.read r.write) r.read r.write x
          v.read_in v.write_in (omega arith)

    publish-contents :
        after (2 ^ k) r.write ≢ r.read
        → contents k blank (record r { write = next_index k r.write })
          ≡ contents k blank r ++ (get_or r.slots r.write blank ∷ [])
    publish-contents ne =
        let n = used (2 ^ k) r.read r.write in
        let e : used (2 ^ k) r.read (next_index k r.write) ≡ suc n =
          ground (arith, v.read_in, v.write_in, next_index-after k r.write v.word v.write_in) in
        rw e (window-last blank r.slots (2 ^ k) n r.read r.write v.read_in v.write_in refl)

    release-contents :
        r.read ≢ r.write
        → contents k blank r
          ≡ get_or r.slots r.read blank ∷ contents k blank (record r { read = next_index k r.read })
    release-contents ne =
        rw (next_index-after k r.read v.word v.read_in)
          (window-read blank r.slots (2 ^ k) r.read r.write v.read_in v.write_in ne)

  -- Each access keeps the invariant.
  Step-Inv : {s t : Threads A} → Step k blank s t → Inv s → Inv t
  Step-Inv (push_full x e full same) inv = subst Inv (sym same) inv
  Step-Inv {s} (push_room x e room same) inv = subst Inv (sym same) record {
    ring = inv.ring;
    producer = rw (← next_index-after k s.ring.write inv.ring.word inv.ring.write_in) room;
    consumer = inv.consumer;
    queue = inv.queue;
  }
  Step-Inv {s} (push_fill x e same) inv =
      let knows = subst (ProducerKnows s.ring) e inv.producer in
      subst Inv (sym same) record {
        ring = record {
          word = inv.ring.word;
          two = inv.ring.two;
          storage = length-set s.ring.slots s.ring.write x ∙ inv.ring.storage;
          write_in = inv.ring.write_in;
          read_in = inv.ring.read_in;
        };
        producer = (
          knows,
          get_or-set_self s.ring.slots s.ring.write x blank
              (omega (arith, inv.ring.storage, inv.ring.write_in)),
        );
        consumer = fill-ConsumerKnows s.ring inv.ring x s.consumer inv.consumer;
        queue = inv.queue ∙ ap (λ q. s.popped ++ q) (sym (fill-contents s.ring inv.ring x));
      }
  Step-Inv {s} (push_publish x e same) inv =
      let (room, stored) = subst (ProducerKnows s.ring) e inv.producer in
      subst Inv (sym same) record {
        ring = record {
          word = inv.ring.word;
          two = inv.ring.two;
          storage = inv.ring.storage;
          write_in = ground (
            arith,
            next_index-after k s.ring.write inv.ring.word inv.ring.write_in,
            inv.ring.write_in,
            inv.ring.two,
          );
          read_in = inv.ring.read_in;
        };
        producer = tt;
        consumer = publish-ConsumerKnows s.ring inv.ring s.consumer room inv.consumer;
        queue =
            ap (λ q. q ++ (x ∷ [])) inv.queue
            ∙ append_assoc s.popped (contents k blank s.ring) (x ∷ [])
            ∙ ap (λ q. s.popped ++ q)
                (sym (
                  publish-contents s.ring inv.ring room
                  ∙ ap (λ y. contents k blank s.ring ++ (y ∷ [])) stored));
      }
  Step-Inv (pop_empty e empty same) inv = subst Inv (sym same) inv
  Step-Inv (pop_ready e some_left same) inv =
      subst Inv (sym same)
        record { ring = inv.ring; producer = inv.producer; consumer = some_left; queue = inv.queue }
  Step-Inv {s} (pop_copy e same) inv = subst Inv (sym same) record {
    ring = inv.ring;
    producer = inv.producer;
    consumer = (subst (ConsumerKnows s.ring) e inv.consumer, refl);
    queue = inv.queue;
  }
  Step-Inv {s} (pop_release x e same) inv =
      let (left, stored) = subst (ConsumerKnows s.ring) e inv.consumer in
      let waiting = contents k blank (record s.ring { read = next_index k s.ring.read }) in
      subst Inv (sym same) record {
        ring = record {
          word = inv.ring.word;
          two = inv.ring.two;
          storage = inv.ring.storage;
          write_in = inv.ring.write_in;
          read_in = ground (
            arith,
            next_index-after k s.ring.read inv.ring.word inv.ring.read_in,
            inv.ring.read_in,
            inv.ring.two,
          );
        };
        producer = release-ProducerKnows s.ring inv.ring s.producer left inv.producer;
        consumer = tt;
        queue =
            inv.queue
            ∙ ap (λ q. s.popped ++ q)
                (release-contents s.ring inv.ring left ∙ ap (λ y. y ∷ waiting) stored)
            ∙ sym (append_assoc s.popped (x ∷ []) waiting);
      }

  pub Reach-Inv : {s : Threads A} → 2 ≤ 2 ^ k → k < 32 → Reach k blank s → Inv s
  unfolding empty_ring
  Reach-Inv two word start = record {
    ring = empty_ring-IsRing k blank two word;
    producer = tt;
    consumer = tt;
    queue = refl;
  }
  Reach-Inv two word (later r st) = Step-Inv st (Reach-Inv two word r)

  -- At any capacity `2 ^ k` from 2 on, with `k` below 32: in every interleaving the consumer has
  -- received exactly the first values that the producer sent, in order, and at most `Capacity - 1`
  -- are still waiting: none is lost, repeated or torn.
  pub spsc_fifo :
      (s : Threads A)
      → 2 ≤ 2 ^ k
      → k < 32
      → Reach k blank s
      → (waiting : List A) × (s.pushed ≡ s.popped ++ waiting) × (length waiting < 2 ^ k)
  spsc_fifo s two word r =
      let inv = Reach-Inv two word r in
      (
        contents k blank s.ring,
        inv.queue,
        ground (
          arith,
          length-window blank s.ring.slots (2 ^ k) s.ring.read
              (used (2 ^ k) s.ring.read s.ring.write),
          inv.ring.read_in,
          inv.ring.write_in,
        ),
      )

  busy_consumer :
      (r : SpscRing A) (c : Consumer A) → ConsumerKnows r c → c ≢ Consumer.idle → r.write ≢ r.read
  busy_consumer r Consumer.idle h busy = absurd (busy refl)
  busy_consumer r Consumer.ready h busy = λ e. h (sym e)
  busy_consumer r (Consumer.taken x) h busy = λ e. h.0 (sym e)

  -- At any capacity `2 ^ k` from 2 on, with `k` below 32, the two sides never access one slot at
  -- once: from the check of a pop to the store of its index, the slot that it copies is not the one
  -- that the producer writes next or is writing.
  pub spsc_exclusive :
      (s : Threads A)
      → 2 ≤ 2 ^ k
      → k < 32
      → Reach k blank s
      → s.consumer ≢ Consumer.idle
      → s.ring.write ≢ s.ring.read
  spsc_exclusive s two word r busy =
      busy_consumer s.ring s.consumer (Reach-Inv two word r).consumer busy
