-- ===== src/Frame/Trip.antt =====
-- The round trip of src/frame.cpp: what `encode_frame` writes, `decode_frame` accepts and reads back.
use ratehub.Prelude.{ℕ, ◌<◌, ◌≡◌, refl, true, some, List, [], length, leb_of_lt, ==_refl}
use ratehub.Types.{Record, InTypes, ParseStatus, max_sources, frame_bytes}
use ratehub.Frame.{encode_frame, decode_frame, decode_local}
use ratehub.Frame.Crc.{frame_crc-lt}
use ratehub.Frame.Image.{image, be16, crc_of, encode_frame-image}
use ratehub.Frame.Loads.{load_magic, load_schema, load_source, load_crc, load_fields-image}

decode_local-image :
    (r : Record) (out : Record)
    → InTypes r
    → r.source_id < max_sources
    → decode_local (image r (be16 (crc_of r) [])) out ≡ (ParseStatus.ok, r)
unfolding decode_local
decode_local-image r out t s = rw (
  load_magic r (be16 (crc_of r) []),
  load_schema r (be16 (crc_of r) []),
  load_source r (be16 (crc_of r) []) s,
  leb_of_lt max_sources r.source_id s,
  load_crc r (crc_of r) (frame_crc-lt (image r [])),
  load_fields-image r (be16 (crc_of r) []) t s,
  ==_refl (crc_of r),
)

-- A record of a known source is encoded into any buffer of a frame's size, and the frame decodes to
-- that record, whatever record the caller held before.
pub decode_frame-encode_frame :
    (r held : Record) (out : List ℕ)
    → InTypes r
    → r.source_id < max_sources
    → length out ≡ frame_bytes
    → ((encode_frame r out).0 ≡ true)
      × (decode_frame (some (encode_frame r out).1) held ≡ (ParseStatus.ok, r))
unfolding decode_frame
decode_frame-encode_frame r held out t s h =
    rw (encode_frame-image r out h s) (refl, decode_local-image r held t s)
