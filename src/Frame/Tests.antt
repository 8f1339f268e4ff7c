-- ===== src/Frame/Tests.antt =====
-- Frames of src/frame.cpp at concrete inputs.
use ratehub.Prelude.{ℕ, ◌<◌, ◌≡◌, ◌≢◌, refl, true, some, List, [], ◌∷◌, replicate, set, arith}
use ratehub.Prelude.Int.{pos, negsuc}
use ratehub.Types.{Record, InTypes, ParseStatus, max_sources}
use ratehub.Frame.{
  encode_frame, decode_frame, decode_local, store_fields, store_u16, load_u16, frame_crc, crc_byte,
}
use ratehub.Frame.Trip.{decode_frame-encode_frame}
use ratehub.Frame.Detect.{decode_frame-damaged}
use ratehub.Frame.Fits.{decode_frame-InTypes}

-- The check value of CRC-16/CCITT-FALSE: the digits 1 to 9.
frame_crc_check :
    frame_crc (0x31 ∷ 0x32 ∷ 0x33 ∷ 0x34 ∷ 0x35 ∷ 0x36 ∷ 0x37 ∷ 0x38 ∷ 0x39 ∷ []) ≡ 0x29b1
unfolding frame_crc crc_byte
frame_crc_check = refl

abbrev moving : Record
moving = record {
  source_id = 1;
  sequence = 2;
  time_ns = pos 10_000_000;
  pos_x = pos 1000;
  pos_y = negsuc 41;
  vel_x = pos 2000;
  vel_y = negsuc 0;
}

abbrev blank : Record
blank = record {
  source_id = 0;
  sequence = 0;
  time_ns = pos 0;
  pos_x = pos 0;
  pos_y = pos 0;
  vel_x = pos 0;
  vel_y = pos 0;
}

abbrev buffer : List ℕ
buffer = replicate 38 0

moving-InTypes : InTypes moving
moving-InTypes = omega arith

decode_frame-encode_frame_example :
    ((encode_frame moving buffer).0 ≡ true)
    × (decode_frame (some (encode_frame moving buffer).1) blank ≡ (ParseStatus.ok, moving))
decode_frame-encode_frame_example =
    decode_frame-encode_frame moving blank buffer moving-InTypes (omega arith) refl

-- The frame of `moving`.
abbrev wire : List ℕ
wire =
    0xa1 ∷ 0x5c ∷ 0 ∷ 3 ∷ 0 ∷ 1 ∷ 0 ∷ 0 ∷ 0 ∷ 0 ∷ 0 ∷ 2 ∷ 0 ∷ 0 ∷ 0 ∷ 0 ∷ 0 ∷ 0x98 ∷ 0x96 ∷ 0x80 ∷ 0
    ∷ 0 ∷ 0x03 ∷ 0xe8 ∷ 0xff ∷ 0xff ∷ 0xff ∷ 0xd6 ∷ 0 ∷ 0 ∷ 0x07 ∷ 0xd0 ∷ 0xff ∷ 0xff ∷ 0xff ∷ 0xff
    ∷ 140 ∷ 251 ∷ []

wire_lem : (encode_frame moving buffer).1 ≡ wire
unfolding encode_frame store_fields store_u16 frame_crc crc_byte
wire_lem = refl

wire_accepted : (decode_frame (some wire) blank).0 ≡ ParseStatus.ok
unfolding decode_frame decode_local load_u16 frame_crc crc_byte
wire_accepted = refl

-- One digit of the sequence flipped.
decode_frame-damaged_example : (decode_frame (some (set wire 11 3)) moving).0 ≢ ParseStatus.ok
decode_frame-damaged_example =
    decode_frame-damaged wire blank moving 11 3 (omega arith) (omega arith) (omega arith)
      (omega arith) wire_accepted

decode_frame-InTypes_example :
    InTypes (decode_frame (some wire) blank).1
    × ((decode_frame (some wire) blank).1.source_id < max_sources)
decode_frame-InTypes_example = decode_frame-InTypes wire blank (omega arith) wire_accepted
