-- ===== src/SpscRing.antt =====
-- include/ratehub/spsc_ring.hpp: the ring between the frame thread and the 5 ms thread. `Capacity` is
-- `2 ^ k`, as the static assertion demands, and `k` is at most 31, since it is a `std::uint32_t`.
pub mod Index
pub mod Queue
pub mod Refine
pub mod Returns
pub mod Threads
pub mod Safety
mod Tests
use Prim.Native.Nat.{bit_and}
use ratehub.Prelude.{
  ℕ, ◌+◌, ◌-◌, ◌^◌, Bool, true, false, List, get_or, set, replicate, ◌==◌, if◌then◌else◌,
}
use ratehub.Prelude.Words.{u32}

pub record SpscRing {ℓ} (A : Type ℓ) : Type ℓ where
  pub slots : List A
  pub write : ℕ
  pub read : ℕ

module _ {ℓ} {A : Type ℓ} (k : ℕ) (blank : A) where
  -- A new ring: every slot holds the value-initialised `blank`.
  unfoldable pub empty_ring : SpscRing A
  empty_ring = record { slots = replicate (2 ^ k) blank; write = 0; read = 0 }

abbrev pub mask : ℕ → ℕ
mask k = 2 ^ k - 1

-- `(i + 1) & kMask`
unfoldable pub next_index : ℕ → ℕ → ℕ
next_index k i = bit_and (u32 (i + 1)) (mask k)

module _ {ℓ} {A : Type ℓ} (k : ℕ) where
  unfoldable pub try_push : SpscRing A → A → Bool × SpscRing A
  try_push r value =
      let next = next_index k r.write in
      if next == r.read
      then (false, r)
      else (true, record r { slots = set r.slots r.write value; write = next })

  -- The result, the value left in `out`, and the ring.
  unfoldable pub try_pop : A → SpscRing A → A → Bool × A × SpscRing A
  try_pop blank r out =
      if r.read == r.write
      then (false, out, r)
      else (true, get_or r.slots r.read blank, record r { read = next_index k r.read })

  -- The difference of the indexes wraps before the mask.
  unfoldable pub occupied : SpscRing A → ℕ
  occupied r = bit_and (u32 (r.write + 2 ^ 32 - r.read)) (mask k)
