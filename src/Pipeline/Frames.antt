-- ===== src/Pipeline/Frames.antt =====
-- The two frames of the short file of tools/make_replay.cpp, for a run of the pipeline.
use ratehub.Prelude.{ℕ, ◌<◌, ◌^◌, ◌≡◌, refl, ap, ◌∙◌, false, some, List, [], ◌∷◌, arith}
use ratehub.Types.{Record, ParseStatus, blank_record}
use ratehub.Frame.{encode_frame, decode_frame}
use ratehub.Frame.Trip.{decode_frame-encode_frame}
use ratehub.Ingest.{blank_frame}
use ratehub.Ingest.Records.{good_records, records_before, record_of_ok}
use ratehub.Replay.{short_record, short_from, replay_records}

pub wire : ℕ → List ℕ
wire seq = (encode_frame (short_record seq) blank_frame).1

wire_ok :
    (seq : ℕ)
    → seq < 2 ^ 32
    → decode_frame (some (wire seq)) blank_record ≡ (ParseStatus.ok, short_record seq)
unfolding wire
wire_ok seq h =
    (decode_frame-encode_frame (short_record seq) blank_record blank_frame (omega (arith, h))
      (omega arith) refl).1

pub wire_status :
    (seq : ℕ) → seq < 2 ^ 32 → (decode_frame (some (wire seq)) blank_record).0 ≡ ParseStatus.ok
wire_status seq h = ap (λ d. d.0) (wire_ok seq h)

abbrev pub decoded : ℕ → Record
decoded seq = (decode_frame (some (wire seq)) blank_record).1

abbrev pub short_file : List (List ℕ)
short_file = wire 1 ∷ wire 2 ∷ []

pub short_file-good_records : good_records short_file ≡ replay_records false
unfolding good_records records_before short_from
short_file-good_records =
    record_of_ok (wire 1) _ (wire_status 1 (omega arith))
    ∙ ap (λ l. decoded 1 ∷ l) (record_of_ok (wire 2) [] (wire_status 2 (omega arith)))
    ∙ ap (λ r. r ∷ decoded 2 ∷ []) (ap (λ d. d.1) (wire_ok 1 (omega arith)))
    ∙ ap (λ r. short_record 1 ∷ r ∷ []) (ap (λ d. d.1) (wire_ok 2 (omega arith)))
