-- ===== src/TripleBuffer/Tests.antt =====
-- A triple buffer of include/ratehub/triple_buffer.hpp at a concrete schedule: two publishes, the
-- second between the load and the exchange of the consume.
use ratehub.Prelude.{ℕ, ◌%◌, ◌≡◌, ◌≢◌, refl, none, [], ◌∷◌}
use ratehub.TripleBuffer.{fill, write_slot, read_slot, publish, is_fresh, swap_read, consume}
use ratehub.TripleBuffer.Register.{offer, take}
use ratehub.TripleBuffer.Threads.{
  Reader, Threads, Reach, start, later, store, publishes, consume_load, consume_swap,
}
use ratehub.TripleBuffer.Safety.{triple_exclusive, triple_register}

abbrev taken : Threads ℕ
taken = record {
  buffer = record { slots = 7 ∷ 0 ∷ 8 ∷ []; write = 0; read = 2; middle = 1 };
  reader = Reader.idle;
  register = record { front = 8; latest = none };
}

taken-Reach : Reach 0 taken
unfolding fill write_slot publish is_fresh swap_read offer take
taken-Reach =
    later
      (later
        (later
          (later (later (later start (store 7 refl)) (publishes refl))
            (consume_load refl refl refl))
          (store 8 refl))
        (publishes refl))
      (consume_swap refl refl)

triple_exclusive_example :
    (taken.buffer.write ≢ taken.buffer.read)
    × (taken.buffer.write ≢ taken.buffer.middle % 4)
    × (taken.buffer.read ≢ taken.buffer.middle % 4)
triple_exclusive_example = triple_exclusive 0 taken taken-Reach

triple_register_example :
    (read_slot 0 taken.buffer ≡ 8)
    × ((consume taken.buffer).0 ≡ (take taken.register).0)
    × (read_slot 0 (consume taken.buffer).1 ≡ (take taken.register).1.front)
triple_register_example = triple_register 0 taken taken-Reach
