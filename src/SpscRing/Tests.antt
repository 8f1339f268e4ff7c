-- ===== src/SpscRing/Tests.antt =====
-- Rings of include/ratehub/spsc_ring.hpp at concrete inputs: four slots, so three values at most.
use ratehub.Prelude.{ℕ, ◌<◌, ◌≡◌, ◌≢◌, refl, true, false, List, [], ◌∷◌, length, arith}
use ratehub.SpscRing.{SpscRing, empty_ring, next_index, try_push, try_pop}
use ratehub.SpscRing.Queue.{Call, push, pop, pushed, popped, run_queue}
use ratehub.SpscRing.Refine.{IsRing, run_ring, run_ring-refines}
use ratehub.SpscRing.Threads.{
  Producer, Consumer, Threads, Reach, start, later, push_room, push_fill, push_publish, pop_ready,
}
use ratehub.SpscRing.Safety.{spsc_fifo, spsc_exclusive}

-- The indexes have gone round: 8 and 9 wait.
abbrev wrapped : SpscRing ℕ
wrapped = record { slots = 9 ∷ 0 ∷ 0 ∷ 8 ∷ []; write = 1; read = 3 }

wrapped-IsRing : IsRing 2 wrapped
wrapped-IsRing = record {
  word = omega arith;
  two = omega arith;
  storage = refl;
  write_in = omega arith;
  read_in = omega arith;
}

abbrev calls : List (Call ℕ)
calls = push 4 ∷ push 5 ∷ pop 0 ∷ pop 0 ∷ pop 0 ∷ pop 7 ∷ []

run_wrapped :
    run_ring 2 0 wrapped calls
    ≡ pushed true
      ∷ pushed false
      ∷ popped true 8
      ∷ popped true 9
      ∷ popped true 4
      ∷ popped false 7
      ∷ []
unfolding run_ring try_push try_pop next_index
run_wrapped = refl

run_ring-refines_example : run_ring 2 0 wrapped calls ≡ run_queue 3 (8 ∷ 9 ∷ []) calls
run_ring-refines_example = run_ring-refines 2 0 wrapped calls wrapped-IsRing

-- One value on its way: pushed, and checked for by the consumer.
abbrev handing_over : Threads ℕ
handing_over = record {
  ring = record { slots = 7 ∷ 0 ∷ 0 ∷ 0 ∷ []; write = 1; read = 0 };
  producer = Producer.idle;
  consumer = Consumer.ready;
  pushed = 7 ∷ [];
  popped = [];
}

handing_over-Reach : Reach 2 0 handing_over
unfolding empty_ring next_index
handing_over-Reach =
    later
      (later (later (later start (push_room 7 refl (omega arith) refl)) (push_fill 7 refl refl))
        (push_publish 7 refl refl))
      (pop_ready refl (omega arith) refl)

spsc_fifo_example : (waiting : List ℕ) × ((7 ∷ []) ≡ waiting) × (length waiting < 4)
spsc_fifo_example = spsc_fifo 2 0 handing_over (omega arith) (omega arith) handing_over-Reach

spsc_exclusive_example : handing_over.ring.write ≢ handing_over.ring.read
spsc_exclusive_example =
    spsc_exclusive 2 0 handing_over (omega arith) (omega arith) handing_over-Reach (λ e. cc)
