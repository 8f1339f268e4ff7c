-- ===== src/TripleBuffer.antt =====
-- include/ratehub/triple_buffer.hpp: the latest complete snapshot, for one writer and one reader.
pub mod Register
pub mod Threads
pub mod Safety
mod Tests
use Prim.Native.Nat.{bit_and, bit_or}
use ratehub.Prelude.{ℕ, Bool, true, false, List, get_or, set, replicate, ◌==◌, if◌then◌else◌}
use ratehub.Prelude.Words.{u32}

pub record TripleBuffer {ℓ} (A : Type ℓ) : Type ℓ where
  pub slots : List A
  pub write : ℕ
  pub read : ℕ
  pub middle : ℕ

abbrev pub index_mask : ℕ
index_mask = 0x3

abbrev pub fresh : ℕ
fresh = 0x4

module _ {ℓ} {A : Type ℓ} where
  -- The constructor: every slot holds the value-initialised `blank`.
  abbrev pub new_buffer : A → TripleBuffer A
  new_buffer blank = record { slots = replicate 3 blank; write = 0; read = 1; middle = 2 }

  -- A store of the writer through `write_slot`.
  unfoldable pub fill : TripleBuffer A → A → TripleBuffer A
  fill b x = record b { slots = set b.slots b.write x }

  unfoldable pub write_slot : A → TripleBuffer A → A
  write_slot blank b = get_or b.slots b.write blank

  unfoldable pub read_slot : A → TripleBuffer A → A
  read_slot blank b = get_or b.slots b.read blank

  unfoldable pub publish : TripleBuffer A → TripleBuffer A
  publish b = record b { middle = bit_or (u32 b.write) fresh; write = bit_and b.middle index_mask }

  -- The load of `middle_` that opens `consume`, and the exchange that ends it.
  unfoldable pub is_fresh : TripleBuffer A → Bool
  is_fresh b = if bit_and b.middle fresh == 0 then false else true

  unfoldable pub swap_read : TripleBuffer A → TripleBuffer A
  swap_read b = record b { middle = u32 b.read; read = bit_and b.middle index_mask }

  unfoldable pub consume : TripleBuffer A → Bool × TripleBuffer A
  consume b = if is_fresh b then (true, swap_read b) else (false, b)
