-- ===== src/Frame/Loads.antt =====
-- The loads of `decode_frame` of src/frame.cpp, at the bytes that the stores leave.
use Prim.Native.Nat.{bit_or}
use ratehub.Prelude.{ℕ, ◌+◌, ◌*◌, ◌/◌, ◌^◌, ◌<◌, ◌≡◌, refl, ap, ◌∙◌, List, [], arith}
use ratehub.Prelude.Bits.{bit_or_fields}
use ratehub.Prelude.Words.{u8, u16, u32, u64, to_unsigned}
use ratehub.Prelude.Words.{signed-unsigned_32, signed-unsigned_64, unsigned-lt_32, unsigned-lt_64}
use ratehub.Types.{Record, InTypes, max_sources, schema_version, frame_magic}
use ratehub.Frame.{load_u16, load_u32, load_u64, load_u64_loop, load_fields}
use ratehub.Frame.Image.{image, be16}

join16 : (v : ℕ) → v < 2 ^ 16 → u16 (bit_or (u8 (v / 2 ^ 8) * 2 ^ 8) (u8 v)) ≡ v
join16 v h = omega (arith, bit_or_fields 8 (u8 (v / 2 ^ 8)) (u8 v) (omega arith))

-- Four bytes side by side.
pub join_bytes :
    (a b c d : ℕ)
    → a < 256
    → b < 256
    → c < 256
    → d < 256
    → bit_or (bit_or (bit_or (u32 (a * 2 ^ 24)) (u32 (b * 2 ^ 16))) (u32 (c * 2 ^ 8))) d
      ≡ a * 2 ^ 24 + b * 2 ^ 16 + c * 2 ^ 8 + d
join_bytes a b c d ha hb hc hd = ground (
  arith,
  bit_or_fields 24 a (b * 2 ^ 16) (omega arith),
  bit_or_fields 16 (a * 2 ^ 8 + b) (c * 2 ^ 8) (omega arith),
  bit_or_fields 8 (a * 2 ^ 16 + b * 2 ^ 8 + c) d (omega arith),
)

join32 :
    (v : ℕ)
    → v < 2 ^ 32
    → bit_or
        (bit_or
          (bit_or (u32 (u8 (v / 2 ^ 24) * 2 ^ 24)) (u32 (u8 (v / 2 ^ 16) * 2 ^ 16)))
          (u32 (u8 (v / 2 ^ 8) * 2 ^ 8)))
        (u8 v)
      ≡ v
join32 v h = omega (
  arith,
  join_bytes (u8 (v / 2 ^ 24)) (u8 (v / 2 ^ 16)) (u8 (v / 2 ^ 8)) (u8 v) (omega arith) (omega arith)
      (omega arith) (omega arith),
)

-- One round of the loop of `load_u64`.
join_round : (v w d : ℕ) → w ≡ v * 256 + d → v < 2 ^ 56 → d < 256 → bit_or (u64 (v * 2 ^ 8)) d ≡ w
join_round v w d e h hd = ground (arith, bit_or_fields 8 v d (omega arith))

-- What the loads find in the image of a record.
module _ (r : Record) (rest : List ℕ) where
  pub load_magic : load_u16 (image r rest) 0 ≡ frame_magic
  unfolding load_u16
  load_magic = refl

  pub load_schema : load_u16 (image r rest) 2 ≡ schema_version
  unfolding load_u16
  load_schema = refl

  pub load_source : r.source_id < max_sources → load_u16 (image r rest) 4 ≡ r.source_id
  unfolding load_u16
  load_source h = join16 (u16 r.source_id) (omega arith) ∙ omega arith

  pub load_sequence : r.sequence < 2 ^ 32 → load_u32 (image r rest) 8 ≡ r.sequence
  unfolding load_u32
  load_sequence h = join32 r.sequence h

  pub load_pos_x : load_u32 (image r rest) 20 ≡ to_unsigned (2 ^ 32) r.pos_x
  unfolding load_u32
  load_pos_x = join32 _ (unsigned-lt_32 r.pos_x)

  pub load_pos_y : load_u32 (image r rest) 24 ≡ to_unsigned (2 ^ 32) r.pos_y
  unfolding load_u32
  load_pos_y = join32 _ (unsigned-lt_32 r.pos_y)

  pub load_vel_x : load_u32 (image r rest) 28 ≡ to_unsigned (2 ^ 32) r.vel_x
  unfolding load_u32
  load_vel_x = join32 _ (unsigned-lt_32 r.vel_x)

  pub load_vel_y : load_u32 (image r rest) 32 ≡ to_unsigned (2 ^ 32) r.vel_y
  unfolding load_u32
  load_vel_y = join32 _ (unsigned-lt_32 r.vel_y)

  abbrev pub stamp : ℕ
  stamp = to_unsigned (2 ^ 64) r.time_ns

  -- The loop of `load_u64` over the eight bytes of the time, with `n` rounds left.
  rounds : ℕ → ℕ → ℕ → ℕ
  rounds n i w = load_u64_loop n (image r rest) i w

  pub load_time : load_u64 (image r rest) 12 ≡ stamp
  unfolding load_u64 load_u64_loop rounds
  load_time =
      ap (rounds 7 13) (
        join_round 0 (stamp / 2 ^ 56) (u8 (stamp / 2 ^ 56))
          (omega (arith, unsigned-lt_64 r.time_ns)) (omega (arith, unsigned-lt_64 r.time_ns))
          (omega (arith, unsigned-lt_64 r.time_ns)))
      ∙ ap (rounds 6 14) (
          join_round (stamp / 2 ^ 56) (stamp / 2 ^ 48) (u8 (stamp / 2 ^ 48))
            (omega (arith, unsigned-lt_64 r.time_ns)) (omega (arith, unsigned-lt_64 r.time_ns))
            (omega (arith, unsigned-lt_64 r.time_ns)))
      ∙ ap (rounds 5 15) (
          join_round (stamp / 2 ^ 48) (stamp / 2 ^ 40) (u8 (stamp / 2 ^ 40))
            (omega (arith, unsigned-lt_64 r.time_ns)) (omega (arith, unsigned-lt_64 r.time_ns))
            (omega (arith, unsigned-lt_64 r.time_ns)))
      ∙ ap (rounds 4 16) (
          join_round (stamp / 2 ^ 40) (stamp / 2 ^ 32) (u8 (stamp / 2 ^ 32))
            (omega (arith, unsigned-lt_64 r.time_ns)) (omega (arith, unsigned-lt_64 r.time_ns))
            (omega (arith, unsigned-lt_64 r.time_ns)))
      ∙ ap (rounds 3 17) (
          join_round (stamp / 2 ^ 32) (stamp / 2 ^ 24) (u8 (stamp / 2 ^ 24))
            (omega (arith, unsigned-lt_64 r.time_ns)) (omega (arith, unsigned-lt_64 r.time_ns))
            (omega (arith, unsigned-lt_64 r.time_ns)))
      ∙ ap (rounds 2 18) (
          join_round (stamp / 2 ^ 24) (stamp / 2 ^ 16) (u8 (stamp / 2 ^ 16))
            (omega (arith, unsigned-lt_64 r.time_ns)) (omega (arith, unsigned-lt_64 r.time_ns))
            (omega (arith, unsigned-lt_64 r.time_ns)))
      ∙ ap (rounds 1 19) (
          join_round (stamp / 2 ^ 16) (stamp / 2 ^ 8) (u8 (stamp / 2 ^ 8))
            (omega (arith, unsigned-lt_64 r.time_ns)) (omega (arith, unsigned-lt_64 r.time_ns))
            (omega (arith, unsigned-lt_64 r.time_ns)))
      ∙ ap (rounds 0 20) (
          join_round (stamp / 2 ^ 8) (stamp / 1) (u8 (stamp / 1))
            (omega (arith, unsigned-lt_64 r.time_ns)) (omega (arith, unsigned-lt_64 r.time_ns))
            (omega (arith, unsigned-lt_64 r.time_ns)))
      ∙ omega (arith, unsigned-lt_64 r.time_ns)

  pub load_fields-image : InTypes r → r.source_id < max_sources → load_fields (image r rest) ≡ r
  unfolding load_fields
  load_fields-image t s = ground (
    arith,
    load_source s,
    load_sequence t.sequence,
    load_time,
    load_pos_x,
    load_pos_y,
    load_vel_x,
    load_vel_y,
    signed-unsigned_64 r.time_ns t.time_ns,
    signed-unsigned_32 r.pos_x t.pos_x,
    signed-unsigned_32 r.pos_y t.pos_y,
    signed-unsigned_32 r.vel_x t.vel_x,
    signed-unsigned_32 r.vel_y t.vel_y,
  )

pub load_crc : (r : Record) (c : ℕ) → c < 2 ^ 16 → load_u16 (image r (be16 c [])) 36 ≡ c
unfolding load_u16
load_crc r c h = join16 c h
