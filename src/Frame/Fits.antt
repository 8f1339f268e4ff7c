-- ===== src/Frame/Fits.antt =====
-- The record that `decode_frame` of src/frame.cpp hands out: its source indexes the tables, and each
-- field is a value of its C++ type.
use Prim.Native.Nat.{bit_or}
use ratehub.Prelude.{ℕ, zero, suc, ◌+◌, ◌*◌, ◌%◌, ◌^◌, ◌<◌, ◌≡◌, some, List, get_or, take, arith}
use ratehub.Prelude.Bits.{bit_or_fields}
use ratehub.Prelude.Words.{u64, to_signed, IsInt32, IsInt64}
use ratehub.Types.{Record, InTypes, ParseStatus, max_sources, frame_bytes}
use ratehub.Frame.{decode_frame, decode_local, load_fields, load_u32, load_u64, load_u64_loop}
use ratehub.Frame.Crc.{AreBytes}
use ratehub.Frame.Loads.{join_bytes}
use ratehub.Frame.Detect.{AreBytes-take, AreBytes-lt, load_u16-bytes}

load_u32-lt : (b : List ℕ) (i : ℕ) → AreBytes b → load_u32 b i < 2 ^ 32
unfolding load_u32
load_u32-lt b i h = omega (
  arith,
  AreBytes-lt b i h,
  AreBytes-lt b (i + 1) h,
  AreBytes-lt b (i + 2) h,
  AreBytes-lt b (i + 3) h,
  join_bytes (get_or b i 0) (get_or b (i + 1) 0) (get_or b (i + 2) 0) (get_or b (i + 3) 0)
      (AreBytes-lt b i h) (AreBytes-lt b (i + 1) h) (AreBytes-lt b (i + 2) h)
      (AreBytes-lt b (i + 3) h),
)

round-lt : (v d : ℕ) → d < 256 → bit_or (u64 (v * 2 ^ 8)) d < 2 ^ 64
round-lt v d h = ground (arith, shifted, bit_or_fields 8 (v % 2 ^ 56) d (omega arith))
  where
    shifted : u64 (v * 2 ^ 8) ≡ v % 2 ^ 56 * 2 ^ 8
    shifted = omega arith

load_u64_loop-lt :
    (n : ℕ) (b : List ℕ) (i v : ℕ) → AreBytes b → v < 2 ^ 64 → load_u64_loop n b i v < 2 ^ 64
unfolding load_u64_loop
load_u64_loop-lt zero b i v h hv = hv
load_u64_loop-lt (suc n) b i v h hv =
    load_u64_loop-lt n b (i + 1) _ h (round-lt v (get_or b i 0) (AreBytes-lt b i h))

load_u64-lt : (b : List ℕ) (i : ℕ) → AreBytes b → load_u64 b i < 2 ^ 64
unfolding load_u64
load_u64-lt b i h = load_u64_loop-lt 8 b i 0 h (omega arith)

signed32 : (w : ℕ) → w < 2 ^ 32 → IsInt32 (to_signed (2 ^ 31) w)
signed32 w h = ground arith

signed64 : (w : ℕ) → w < 2 ^ 64 → IsInt64 (to_signed (2 ^ 63) w)
signed64 w h = ground arith

load_fields-InTypes : (b : List ℕ) → AreBytes b → InTypes (load_fields b)
unfolding load_fields
load_fields-InTypes b h = record {
  source_id = omega (arith, load_u16-bytes b 4 h, AreBytes-lt b 4 h, AreBytes-lt b 5 h);
  sequence = load_u32-lt b 8 h;
  time_ns = signed64 _ (load_u64-lt b 12 h);
  pos_x = signed32 _ (load_u32-lt b 20 h);
  pos_y = signed32 _ (load_u32-lt b 24 h);
  vel_x = signed32 _ (load_u32-lt b 28 h);
  vel_y = signed32 _ (load_u32-lt b 32 h);
}

decode_local-fits :
    (b : List ℕ) (held : Record)
    → (decode_local b held).0 ≡ ParseStatus.ok
    → ((decode_local b held).1 ≡ load_fields b) × ((load_fields b).source_id < max_sources)
unfolding decode_local load_fields
decode_local-fits b held e = ground arith

decode_frame-fits :
    (b : List ℕ) (held : Record)
    → (decode_frame (some b) held).0 ≡ ParseStatus.ok
    → ((decode_frame (some b) held).1 ≡ load_fields (take frame_bytes b))
      × ((load_fields (take frame_bytes b)).source_id < max_sources)
unfolding decode_frame
decode_frame-fits b held e = ground (arith, decode_local-fits (take frame_bytes b) held)

-- An accepted frame yields a record of a known source whose fields fit their C++ types.
pub decode_frame-InTypes :
    (b : List ℕ) (held : Record)
    → AreBytes b
    → (decode_frame (some b) held).0 ≡ ParseStatus.ok
    → InTypes (decode_frame (some b) held).1
      × ((decode_frame (some b) held).1.source_id < max_sources)
decode_frame-InTypes b held h e =
    let (same, source) = decode_frame-fits b held e in
    rw same (load_fields-InTypes (take frame_bytes b) (AreBytes-take frame_bytes b h), source)
