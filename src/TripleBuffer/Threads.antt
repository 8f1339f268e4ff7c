-- ===== src/TripleBuffer/Threads.antt =====
-- A writer and a reader of include/ratehub/triple_buffer.hpp, interleaved at each access: the writer
-- stores into its slot any number of times before it publishes, and a publish may land between the
-- load and the exchange of a consume.
use ratehub.Prelude.{◌≡◌, true, false, none}
use ratehub.TripleBuffer.{TripleBuffer, new_buffer, fill, write_slot, publish, is_fresh, swap_read}
use ratehub.TripleBuffer.Register.{Register, offer, take}

-- Where `consume` stands.
pub data Reader : Type 0 where
  idle : Reader
  fresh_seen : Reader

pub record Threads (A : Type 0) : Type 0 where
  pub buffer : TripleBuffer A
  pub reader : Reader
  pub register : Register A  -- the abstract register, moved on by whole calls

module _ {A : Type 0} (blank : A) where
  abbrev pub initial : Threads A
  initial = record {
    buffer = new_buffer blank;
    reader = Reader.idle;
    register = record { front = blank; latest = none };
  }

  pub data Step (s t : Threads A) : Type 0 where
    store : (x : A) → t ≡ record s { buffer = fill s.buffer x } → Step s t
    publishes :
        t ≡ record s {
          buffer = publish s.buffer;
          register = offer s.register (write_slot blank s.buffer);
        }
        → Step s t
    consume_none : s.reader ≡ Reader.idle → is_fresh s.buffer ≡ false → t ≡ s → Step s t
    consume_load :
        s.reader ≡ Reader.idle
        → is_fresh s.buffer ≡ true
        → t ≡ record s { reader = Reader.fresh_seen }
        → Step s t
    consume_swap :
        s.reader ≡ Reader.fresh_seen
        → t ≡ record s {
          buffer = swap_read s.buffer;
          reader = Reader.idle;
          register = (take s.register).1;
        }
        → Step s t

  pub data Reach : Threads A → Type 0 where
    start : Reach initial
    later : {s t : Threads A} → Reach s → Step s t → Reach t
