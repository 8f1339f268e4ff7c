-- ===== src/Ingest/Sample.antt =====
-- A frame of src/ingest.cpp with one record, for its tests.
use ratehub.Prelude.{ℕ, ◌≡◌, refl, some, List, arith}
use ratehub.Prelude.Int.{pos}
use ratehub.Types.{Record, ParseStatus, InTypes, blank_record}
use ratehub.Frame.{encode_frame, decode_frame}
use ratehub.Frame.Trip.{decode_frame-encode_frame}
use ratehub.Ingest.{blank_frame}

abbrev pub sample : Record
sample = record blank_record { source_id = 1; pos_x = pos 1000 }

sample-InTypes : InTypes sample
sample-InTypes = omega arith

pub wire : List ℕ
wire = (encode_frame sample blank_frame).1

pub wire_ok : decode_frame (some wire) blank_record ≡ (ParseStatus.ok, sample)
unfolding wire
wire_ok =
    (decode_frame-encode_frame sample blank_record blank_frame sample-InTypes (omega arith) refl).1

pub wire_status : (decode_frame (some wire) blank_record).0 ≡ ParseStatus.ok
wire_status = cc wire_ok

abbrev pub decoded : Record
decoded = (decode_frame (some wire) blank_record).1
