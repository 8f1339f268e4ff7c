-- ===== src/Frame/Crc.antt =====
-- `frame_crc` of src/frame.cpp: it fits 16 bits, and it tells apart byte strings of one length that
-- differ in a single byte.
use Prim.Native.Nat.{bit_xor}
use ratehub.Prelude.{
  ℕ, zero, suc, ◌*◌, ◌/◌, ◌%◌, ◌^◌, ◌<◌, ◌≡◌, List, [], ◌∷◌, length, get_or, set, arith,
}
use ratehub.Prelude.Bits.{bit_and_pow, bit_xor-mod_two, bit_xor-mod_cancel, bit_xor_comm}
use ratehub.Frame.{crc_bit, crc_bits, crc_byte, crc_loop, frame_crc}

abbrev IsWord : ℕ → Type 0
IsWord c = c < 2 ^ 16

-- The polynomial shifts in a set lowest digit, and the plain shift a clear one.
crc_bit-parity : (c : ℕ) → IsWord c → crc_bit c % 2 ≡ c / 2 ^ 15
unfolding crc_bit
crc_bit-parity c h = ground (arith, bit_and_pow 15 c, bit_xor-mod_two (c * 2 ^ 1) 0x1021)

crc_bit-IsWord : (c : ℕ) → IsWord (crc_bit c)
unfolding crc_bit
crc_bit-IsWord c = ground arith

crc_bit_low : (c : ℕ) → IsWord c → c / 2 ^ 15 ≡ 0 → crc_bit c ≡ c * 2
unfolding crc_bit
crc_bit_low c h e = ground (arith, bit_and_pow 15 c)

crc_bit_high : (c : ℕ) → IsWord c → c / 2 ^ 15 ≡ 1 → crc_bit c ≡ bit_xor (c * 2) 0x1021 % 2 ^ 16
unfolding crc_bit
crc_bit_high c h e = ground (arith, bit_and_pow 15 c)

crc_bit-injective : (c d : ℕ) → IsWord c → IsWord d → crc_bit c ≡ crc_bit d → c ≡ d
crc_bit-injective c d hc hd e = ground (
  arith,
  crc_bit-parity c hc,
  crc_bit-parity d hd,
  crc_bit_low c hc,
  crc_bit_low d hd,
  crc_bit_high c hc,
  crc_bit_high d hd,
  bit_xor-mod_cancel 16 (c * 2) (d * 2) 0x1021,
)

crc_bits-IsWord : (n c : ℕ) → IsWord c → IsWord (crc_bits n c)
unfolding crc_bits
crc_bits-IsWord zero c h = h
crc_bits-IsWord (suc n) c h = crc_bits-IsWord n (crc_bit c) (crc_bit-IsWord c)

crc_bits-injective : (n c d : ℕ) → IsWord c → IsWord d → crc_bits n c ≡ crc_bits n d → c ≡ d
unfolding crc_bits
crc_bits-injective zero c d hc hd e = e
crc_bits-injective (suc n) c d hc hd e =
    crc_bit-injective c d hc hd
      (crc_bits-injective n (crc_bit c) (crc_bit d) (crc_bit-IsWord c) (crc_bit-IsWord d) e)

crc_byte-IsWord : (c d : ℕ) → IsWord (crc_byte c d)
unfolding crc_byte
crc_byte-IsWord c d = crc_bits-IsWord 8 _ (omega arith)

crc_byte-injective : (c c' d : ℕ) → IsWord c → IsWord c' → crc_byte c d ≡ crc_byte c' d → c ≡ c'
unfolding crc_byte
crc_byte-injective c c' d h h' e = omega (
  arith,
  bit_xor-mod_cancel 16 c c' (d % 2 ^ 16 * 2 ^ 8)
      (crc_bits-injective 8 _ _ (omega arith) (omega arith) e),
)

crc_byte-injective_right : (c d d' : ℕ) → d < 256 → d' < 256 → crc_byte c d ≡ crc_byte c d' → d ≡ d'
unfolding crc_byte
crc_byte-injective_right c d d' h h' e = omega (
  arith,
  bit_xor-mod_cancel 16 (d % 2 ^ 16 * 2 ^ 8) (d' % 2 ^ 16 * 2 ^ 8) c (
      rw (bit_xor_comm _ c, bit_xor_comm (d' % 2 ^ 16 * 2 ^ 8) c)
        (crc_bits-injective 8 _ _ (omega arith) (omega arith) e)),
)

crc_loop-IsWord : (c : ℕ) (ds : List ℕ) → IsWord c → IsWord (crc_loop c ds)
unfolding crc_loop
crc_loop-IsWord c [] h = h
crc_loop-IsWord c (d ∷ ds) h = crc_loop-IsWord (crc_byte c d) ds (crc_byte-IsWord c d)

pub frame_crc-lt : (ds : List ℕ) → frame_crc ds < 2 ^ 16
unfolding frame_crc
frame_crc-lt ds = crc_loop-IsWord 0xffff ds (omega arith)

crc_loop-injective :
    (c c' : ℕ) (ds : List ℕ) → IsWord c → IsWord c' → crc_loop c ds ≡ crc_loop c' ds → c ≡ c'
unfolding crc_loop
crc_loop-injective c c' [] h h' e = e
crc_loop-injective c c' (d ∷ ds) h h' e = crc_byte-injective c c' d h h' (
    crc_loop-injective (crc_byte c d) (crc_byte c' d) ds (crc_byte-IsWord c d)
      (crc_byte-IsWord c' d) e)

-- Every element is a `std::uint8_t`.
abbrev pub AreBytes : List ℕ → Type 0
AreBytes [] = Unit {0}
AreBytes (d ∷ ds) = (d < 256) × AreBytes ds

crc_loop-set :
    (c : ℕ) (ds : List ℕ) (i v : ℕ)
    → AreBytes ds
    → IsWord c
    → i < length ds
    → v < 256
    → crc_loop c (set ds i v) ≡ crc_loop c ds
    → v ≡ get_or ds i 0
unfolding crc_loop
crc_loop-set c [] i v b h hi hv e = absurd (omega arith)
crc_loop-set c (d ∷ ds) zero v b h hi hv e = crc_byte-injective_right c v d hv b.0 (
    crc_loop-injective (crc_byte c v) (crc_byte c d) ds (crc_byte-IsWord c v) (crc_byte-IsWord c d)
      e)
crc_loop-set c (d ∷ ds) (suc i) v b h hi hv e =
    crc_loop-set (crc_byte c d) ds i v b.1 (crc_byte-IsWord c d) (omega arith) hv e

-- A change of one byte changes the CRC.
pub frame_crc-set_injective :
    (ds : List ℕ) (i v : ℕ)
    → AreBytes ds
    → i < length ds
    → v < 256
    → frame_crc (set ds i v) ≡ frame_crc ds
    → v ≡ get_or ds i 0
unfolding frame_crc
frame_crc-set_injective ds i v b hi hv e = crc_loop-set 0xffff ds i v b (omega arith) hi hv e
