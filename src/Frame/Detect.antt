-- ===== src/Frame/Detect.antt =====
-- What `decode_frame` of src/frame.cpp accepts: the shape of an accepted frame, its record, and the
-- damage that it refuses.
use ratehub.Prelude.{
  ℕ, zero, suc, ◌+◌, ◌*◌, ◌^◌, ◌≤◌, ◌<◌, ◌≡◌, ◌≢◌, ◌∙◌, sym, ap, subst, refl, Option, some, none,
  List, [], ◌∷◌, length, get_or, set, take, arith, length-take, get_or-set_self, get_or-set_ne,
  get_or-take, take-set, take-set_of_le,
}
use native.Mathlib.Decide.{dec_lt}
use ratehub.Prelude.Bits.{bit_or_fields}
use ratehub.Types.{Record, ParseStatus, max_sources, schema_version, frame_magic, frame_bytes}
use ratehub.Frame.{decode_frame, decode_local, load_u16, frame_crc}
use ratehub.Frame.Crc.{AreBytes, frame_crc-set_injective}

-- The caller's record is replaced only by an accepted frame.
decode_frame-keeps :
    (bytes : Option (List ℕ)) (held : Record)
    → (decode_frame bytes held).0 ≢ ParseStatus.ok
    → (decode_frame bytes held).1 ≡ held
unfolding decode_frame decode_local
decode_frame-keeps none held h = refl
decode_frame-keeps (some b) held h = ground arith

-- What the checks of `decode_local` establish.
pub record Accepted (b : List ℕ) : Type 0 where
  pub magic : load_u16 b 0 ≡ frame_magic
  pub schema : load_u16 b 2 ≡ schema_version
  pub source : load_u16 b 4 < max_sources
  pub crc : load_u16 b 36 ≡ frame_crc (take 36 b)

decode_local-Accepted :
    (b : List ℕ) (held : Record) → (decode_local b held).0 ≡ ParseStatus.ok → Accepted b
unfolding decode_local
decode_local-Accepted b held h = ground arith

pub decode_frame-Accepted :
    (b : List ℕ) (held : Record)
    → (decode_frame (some b) held).0 ≡ ParseStatus.ok
    → (frame_bytes ≤ length b) × Accepted (take frame_bytes b)
unfolding decode_frame
decode_frame-Accepted b held h = ground (arith, decode_local-Accepted (take frame_bytes b) held)

pub AreBytes-take : (n : ℕ) (b : List ℕ) → AreBytes b → AreBytes (take n b)
AreBytes-take zero b h = tt
AreBytes-take (suc n) [] h = tt
AreBytes-take (suc n) (x ∷ b) h = (h.0, AreBytes-take n b h.1)

AreBytes-set : (b : List ℕ) (i v : ℕ) → AreBytes b → v < 256 → AreBytes (set b i v)
AreBytes-set [] i v h hv = tt
AreBytes-set (x ∷ b) zero v h hv = (hv, h.1)
AreBytes-set (x ∷ b) (suc i) v h hv = (h.0, AreBytes-set b i v h.1 hv)

pub AreBytes-lt : (b : List ℕ) (i : ℕ) → AreBytes b → get_or b i 0 < 256
AreBytes-lt [] i h = omega arith
AreBytes-lt (x ∷ b) zero h = h.0
AreBytes-lt (x ∷ b) (suc i) h = AreBytes-lt b i h.1

pub load_u16-bytes :
    (b : List ℕ) (i : ℕ) → AreBytes b → load_u16 b i ≡ get_or b i 0 * 2 ^ 8 + get_or b (i + 1) 0
unfolding load_u16
load_u16-bytes b i h = omega (
  arith,
  AreBytes-lt b i h,
  AreBytes-lt b (i + 1) h,
  bit_or_fields 8 (get_or b i 0) (get_or b (i + 1) 0) (AreBytes-lt b (i + 1) h),
)

-- A frame of the right length, and the same with one byte written anew.
module _ (b : List ℕ) (i v : ℕ) (bytes : AreBytes b) (long : length b ≡ frame_bytes)
    (new : v < 256) where
  fields_damaged : i < 36 → Accepted b → Accepted (set b i v) → v ≡ get_or b i 0
  fields_damaged h a a' =
      frame_crc-set_injective (take 36 b) i v (AreBytes-take 36 b bytes)
        (omega (arith, length-take {0} 36 b)) new same
      ∙ get_or-take 36 b i 0 h
    where
      same : frame_crc (set (take 36 b) i v) ≡ frame_crc (take 36 b)
      same =
          ap frame_crc (sym (take-set 36 b i v))
          ∙ omega (
            arith,
            a.crc,
            a'.crc,
            load_u16-bytes b 36 bytes,
            load_u16-bytes (set b i v) 36 (AreBytes-set b i v bytes new),
            get_or-set_ne b i 36 v 0 (omega arith),
            get_or-set_ne b i 37 v 0 (omega arith),
          )

  crc_damaged : 36 ≤ i → i < frame_bytes → Accepted b → Accepted (set b i v) → v ≡ get_or b i 0
  crc_damaged h h' a a' = ground (
    arith,
    ap frame_crc (take-set_of_le 36 b i v h),
    load_u16-bytes b 36 bytes,
    load_u16-bytes (set b i v) 36 (AreBytes-set b i v bytes new),
    AreBytes-lt b 36 bytes,
    AreBytes-lt b 37 bytes,
    get_or-set_self b i v 0,
    get_or-set_ne b i 36 v 0,
    get_or-set_ne b i 37 v 0,
  )

  damaged : i < frame_bytes → Accepted b → Accepted (set b i v) → v ≡ get_or b i 0
  damaged h a a' = elim (dec_lt i 36) [
    | yes low ↦ fields_damaged low a a'
    | no high ↦ crc_damaged (omega arith) h a a'
  ]

-- No string of bytes that `decode_frame` accepts is still accepted after one of its first 38 bytes
-- has changed to another byte.
pub decode_frame-damaged :
    (b : List ℕ) (held held' : Record) (i v : ℕ)
    → AreBytes b
    → i < frame_bytes
    → v < 256
    → v ≢ get_or b i 0
    → (decode_frame (some b) held).0 ≡ ParseStatus.ok
    → (decode_frame (some (set b i v)) held').0 ≢ ParseStatus.ok
decode_frame-damaged b held held' i v bytes hi hv ne e e' =
    let (long, a) = decode_frame-Accepted b held e in
    let (long', a') = decode_frame-Accepted (set b i v) held' e' in
    ne (
      damaged (take 38 b) i v (AreBytes-take 38 b bytes) (omega (arith, length-take {0} 38 b)) hv hi
        a (subst Accepted (take-set 38 b i v) a')
      ∙ get_or-take 38 b i 0 hi)
