-- ===== src/SpscRing/Threads.antt =====
-- One producer and one consumer over a ring of include/ratehub/spsc_ring.hpp, interleaved at each
-- access to shared memory. The accesses are taken in one order: the release store of an index and
-- the acquire load of it by the other side order the slot accesses, and `Safety` shows that no slot is
-- accessed by both sides at a time. A side's load of its own index reads its last store.
use ratehub.Prelude.{ℕ, ◌≡◌, ◌≢◌, List, [], ◌∷◌, ◌++◌, get_or, set}
use ratehub.SpscRing.{SpscRing, empty_ring, next_index}

-- Where `try_push` stands, with its argument.
pub data Producer {ℓ} (A : Type ℓ) : Type ℓ where
  idle : Producer A
  room : A → Producer A  -- the ring was not full; the slot is not written
  filled : A → Producer A  -- the slot is written; the index is not stored

-- Where `try_pop` stands.
pub data Consumer {ℓ} (A : Type ℓ) : Type ℓ where
  idle : Consumer A
  ready : Consumer A  -- the ring was not empty; the slot is not read
  taken : A → Consumer A  -- the slot is read; the index is not stored

-- `pushed` and `popped` record the values of the calls that have returned true, oldest first.
pub record Threads {ℓ} (A : Type ℓ) : Type ℓ where
  pub ring : SpscRing A
  pub producer : Producer A
  pub consumer : Consumer A
  pub pushed : List A
  pub popped : List A

module _ {ℓ} {A : Type ℓ} (k : ℕ) (blank : A) where
  abbrev pub initial : Threads A
  initial = record {
    ring = empty_ring k blank;
    producer = Producer.idle;
    consumer = Consumer.idle;
    pushed = [];
    popped = [];
  }

  -- One access of one side.
  pub data Step (s t : Threads A) : Type ℓ where
    push_full :
        (x : A)
        → s.producer ≡ Producer.idle
        → next_index k s.ring.write ≡ s.ring.read
        → t ≡ s
        → Step s t
    push_room :
        (x : A)
        → s.producer ≡ Producer.idle
        → next_index k s.ring.write ≢ s.ring.read
        → t ≡ record s { producer = Producer.room x }
        → Step s t
    push_fill :
        (x : A)
        → s.producer ≡ Producer.room x
        → t ≡ record s {
          ring = record s.ring { slots = set s.ring.slots s.ring.write x };
          producer = Producer.filled x;
        }
        → Step s t
    push_publish :
        (x : A)
        → s.producer ≡ Producer.filled x
        → t ≡ record s {
          ring = record s.ring { write = next_index k s.ring.write };
          producer = Producer.idle;
          pushed = s.pushed ++ (x ∷ []);
        }
        → Step s t
    pop_empty : s.consumer ≡ Consumer.idle → s.ring.read ≡ s.ring.write → t ≡ s → Step s t
    pop_ready :
        s.consumer ≡ Consumer.idle
        → s.ring.read ≢ s.ring.write
        → t ≡ record s { consumer = Consumer.ready }
        → Step s t
    pop_copy :
        s.consumer ≡ Consumer.ready
        → t ≡ record s { consumer = Consumer.taken (get_or s.ring.slots s.ring.read blank) }
        → Step s t
    pop_release :
        (x : A)
        → s.consumer ≡ Consumer.taken x
        → t ≡ record s {
          ring = record s.ring { read = next_index k s.ring.read };
          consumer = Consumer.idle;
          popped = s.popped ++ (x ∷ []);
        }
        → Step s t

  pub data Reach : Threads A → Type ℓ where
    start : Reach initial
    later : {s t : Threads A} → Reach s → Step s t → Reach t
