-- ===== src/Frame.antt =====
-- src/frame.cpp: the wire frame, 38 bytes, big-endian, with a CRC-16 over the first 36. A buffer is
-- the list of its bytes, and a pointer into it is an offset.
pub mod Crc
mod Image
pub mod Loads
pub mod Trip
pub mod Detect
pub mod Fits
mod Tests
use Prim.Native.Nat.{bit_and, bit_or, bit_xor}
use ratehub.Prelude.{
  ℕ, zero, suc, ◌+◌, ◌*◌, ◌/◌, ◌^◌, Bool, true, false, not, Option, none, some, List, [], ◌∷◌,
  length, get_or, set, take, ltb, leb, ◌==◌, if◌then◌else◌,
}
use ratehub.Prelude.Words.{u8, u16, u32, u64, to_unsigned, to_signed}
use ratehub.Types.{Record, ParseStatus, max_sources, schema_version, frame_magic, frame_bytes}

-- A `set` past the end changes nothing; every buffer here has `frame_bytes` bytes.
unfoldable pub store_u16 : List ℕ → ℕ → ℕ → List ℕ
store_u16 p i v = set (set p i (u8 (v / 2 ^ 8))) (i + 1) (u8 v)

unfoldable pub store_u32 : List ℕ → ℕ → ℕ → List ℕ
store_u32 p i v =
    set (set (set (set p i (u8 (v / 2 ^ 24))) (i + 1) (u8 (v / 2 ^ 16))) (i + 2) (u8 (v / 2 ^ 8)))
      (i + 3) (u8 v)

-- The loop of `store_u64` with `n` rounds left: the shift is `8 * (n - 1)`.
store_u64_loop : ℕ → List ℕ → ℕ → ℕ → List ℕ
store_u64_loop zero p i v = p
store_u64_loop (suc n) p i v = store_u64_loop n (set p i (u8 (v / 2 ^ (8 * n)))) (i + 1) v

unfoldable pub store_u64 : List ℕ → ℕ → ℕ → List ℕ
unfolding store_u64_loop
store_u64 p i v = store_u64_loop 8 p i v

abbrev byte : List ℕ → ℕ → ℕ
byte p i = get_or p i 0

unfoldable pub load_u16 : List ℕ → ℕ → ℕ
load_u16 p i = u16 (bit_or (byte p i * 2 ^ 8) (byte p (i + 1)))

unfoldable pub load_u32 : List ℕ → ℕ → ℕ
load_u32 p i =
    bit_or
      (bit_or (bit_or (u32 (byte p i * 2 ^ 24)) (u32 (byte p (i + 1) * 2 ^ 16)))
        (u32 (byte p (i + 2) * 2 ^ 8)))
      (byte p (i + 3))

-- The loop of `load_u64` with `n` rounds left.
load_u64_loop : ℕ → List ℕ → ℕ → ℕ → ℕ
load_u64_loop zero p i v = v
load_u64_loop (suc n) p i v = load_u64_loop n p (i + 1) (bit_or (u64 (v * 2 ^ 8)) (byte p i))

unfoldable pub load_u64 : List ℕ → ℕ → ℕ
unfolding load_u64_loop
load_u64 p i = load_u64_loop 8 p i 0

-- One round of the inner loop of `frame_crc`.
unfoldable pub crc_bit : ℕ → ℕ
crc_bit crc =
    if not (bit_and crc 0x8000 == 0) then u16 (bit_xor (crc * 2 ^ 1) 0x1021) else u16 (crc * 2 ^ 1)

crc_bits : ℕ → ℕ → ℕ
crc_bits zero crc = crc
crc_bits (suc n) crc = crc_bits n (crc_bit crc)

-- One round of the outer loop.
unfoldable pub crc_byte : ℕ → ℕ → ℕ
unfolding crc_bits crc_bit
crc_byte crc d = crc_bits 8 (u16 (bit_xor crc (u16 d * 2 ^ 8)))

crc_loop : ℕ → List ℕ → ℕ
crc_loop crc [] = crc
crc_loop crc (d ∷ ds) = crc_loop (crc_byte crc d) ds

-- The list holds the `length` bytes at `data`.
unfoldable pub frame_crc : List ℕ → ℕ
unfolding crc_loop
frame_crc data' = crc_loop 0xffff data'

-- The stores of `encode_frame` up to the CRC.
unfoldable pub store_fields : Record → List ℕ → List ℕ
unfolding store_u16 store_u32 store_u64
store_fields r out =
    let p = store_u16 out 0 frame_magic in
    let p = store_u16 p 2 schema_version in
    let p = store_u16 p 4 (u16 r.source_id) in
    let p = store_u16 p 6 0 in
    let p = store_u32 p 8 r.sequence in
    let p = store_u64 p 12 (to_unsigned (2 ^ 64) r.time_ns) in
    let p = store_u32 p 20 (to_unsigned (2 ^ 32) r.pos_x) in
    let p = store_u32 p 24 (to_unsigned (2 ^ 32) r.pos_y) in
    let p = store_u32 p 28 (to_unsigned (2 ^ 32) r.vel_x) in
    store_u32 p 32 (to_unsigned (2 ^ 32) r.vel_y)

unfoldable pub encode_frame : Record → List ℕ → Bool × List ℕ
encode_frame r out =
    if leb max_sources r.source_id
    then (false, out)
    else (let p = store_fields r out in (true, store_u16 p 36 (frame_crc (take 36 p))))

-- The loads of `decode_frame` once the checks have passed.
unfoldable pub load_fields : List ℕ → Record
load_fields local = record {
  source_id = load_u16 local 4;
  sequence = load_u32 local 8;
  time_ns = to_signed (2 ^ 63) (load_u64 local 12);
  pos_x = to_signed (2 ^ 31) (load_u32 local 20);
  pos_y = to_signed (2 ^ 31) (load_u32 local 24);
  vel_x = to_signed (2 ^ 31) (load_u32 local 28);
  vel_y = to_signed (2 ^ 31) (load_u32 local 32);
}

-- The checks of `decode_frame` on the local copy, in order.
unfoldable pub decode_local : List ℕ → Record → ParseStatus × Record
decode_local local out =
    if not (load_u16 local 0 == frame_magic)
    then (ParseStatus.bad_magic, out)
    else if not (load_u16 local 2 == schema_version)
    then (ParseStatus.bad_version, out)
    else if leb max_sources (load_u16 local 4)
    then (ParseStatus.bad_source, out)
    else if not (load_u16 local 36 == frame_crc (take 36 local))
    then (ParseStatus.bad_checksum, out)
    else (ParseStatus.ok, load_fields local)

-- `none` is the null pointer; otherwise the list holds the `length` bytes that `bytes` points to.
unfoldable pub decode_frame : Option (List ℕ) → Record → ParseStatus × Record
decode_frame none out = (ParseStatus.truncated, out)
decode_frame (some bytes) out =
    if ltb (length bytes) frame_bytes
    then (ParseStatus.truncated, out)
    else decode_local (take frame_bytes bytes) out
