-- ===== src/Ingest/Records.antt =====
-- The records of the good frames of a file of src/ingest.cpp.
use ratehub.Prelude.{
  ℕ, ◌≡◌, ◌≢◌, refl, ap, Bool, true, false, some, List, [], ◌∷◌, ◌++◌, arith, if◌then◌else◌,
}
use ratehub.Types.{Record, ParseStatus, blank_record}
use ratehub.Frame.{decode_frame}
use ratehub.Ingest.{Source, Frames}

abbrev status_ok : ParseStatus → Bool
status_ok ParseStatus.ok = true
status_ok ParseStatus.truncated = false
status_ok ParseStatus.bad_magic = false
status_ok ParseStatus.bad_version = false
status_ok ParseStatus.bad_source = false
status_ok ParseStatus.bad_checksum = false

-- `rest` after the record of a frame, if the frame has one.
unfoldable pub record_of : List ℕ → List Record → List Record
record_of f rest =
    if status_ok (decode_frame (some f) blank_record).0
    then (decode_frame (some f) blank_record).1 ∷ rest
    else rest

-- The records of the good frames of a file, in order, before `rest`.
unfoldable pub records_before : List (List ℕ) → List Record → List Record
unfolding record_of
records_before [] rest = rest
records_before (f ∷ fs) rest = record_of f (records_before fs rest)

unfoldable pub good_records : List (List ℕ) → List Record
unfolding records_before
good_records file = records_before file []

pub record_of_ok :
    (f : List ℕ) (rest : List Record)
    → (decode_frame (some f) blank_record).0 ≡ ParseStatus.ok
    → record_of f rest ≡ (decode_frame (some f) blank_record).1 ∷ rest
unfolding record_of
record_of_ok f rest h = rw (h, record_of) refl

pub record_of_bad :
    (f : List ℕ) (rest : List Record)
    → (decode_frame (some f) blank_record).0 ≢ ParseStatus.ok
    → record_of f rest ≡ rest
unfolding record_of
record_of_bad f rest h = ground arith

pub records_before-append :
    (fs gs : List (List ℕ)) (rest : List Record)
    → records_before (fs ++ gs) rest ≡ records_before fs (records_before gs rest)
unfolding records_before
records_before-append [] gs rest = refl
records_before-append (f ∷ fs) gs rest = ap (record_of f) (records_before-append fs gs rest)

-- What the two threads have at hand, before `rest`.
unfoldable pub at_hand : Source → List Record → List Record
at_hand Source.reading rest = rest
at_hand (Source.checking f) rest = record_of f rest
at_hand (Source.pushing f) rest = record_of f rest
at_hand Source.leaving rest = rest
at_hand Source.ended rest = rest

unfoldable pub in_work : Frames → List Record → List Record
in_work Frames.popping rest = rest
in_work (Frames.handling f) rest = record_of f rest
in_work (Frames.sending r) rest = r ∷ rest
in_work Frames.finished rest = rest
