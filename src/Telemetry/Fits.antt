-- ===== src/Telemetry/Fits.antt =====
-- The text of src/telemetry.cpp: all of it, or 0; and the observer's array holds it.
use Prim.Native.String.{String}
use ratehub.Prelude.{
  ℕ, suc, ◌+◌, ◌*◌, ◌≤◌, ◌<◌, ◌≡◌, refl, sym, ap, ◌∙◌, inl, inr, Bool, true, false, Bool-cases,
  Option, none, some, List, [], ◌∷◌, ◌++◌, append_assoc, append-nil, length, length-append, arith,
  ltb, leb, leb→le, ltb→lt, leb_of_lt, leb_of_le, if◌then◌else◌, ◌>>=◌,
}
use ratehub.Prelude.Text.{
  codes, decimal, signed_decimal, length-decimal-le, length-signed_decimal-le,
}
use ratehub.Layout.{WindowState, Layout}
use ratehub.Compute.{Memcpy}
use ratehub.Telemetry.{
  SourcePoint, TelemetrySnapshot, max_points, put, fields_text, head_fields, head_text, point_text,
  put_points, format_telemetry_json, collect_telemetry,
}
use ratehub.Telemetry.Points.{collect_telemetry-max_points}

unfoldable pub points_text : Bool → List SourcePoint → List ℕ
points_text first [] = []
points_text first (src ∷ sources) = point_text first src ++ points_text false sources

-- The whole text of a snapshot.
unfoldable pub json_text : TelemetrySnapshot → List ℕ
json_text snap = head_text snap ++ (points_text true snap.sources ++ codes "]}")

-- The text, if it leaves room for the closing zero.
abbrev pub if_fits : ℕ → List ℕ → Option (List ℕ)
if_fits cap text = if leb cap (length text) then none else some text

put-if_fits : (cap : ℕ) (out text : List ℕ) → put cap out text ≡ if_fits cap (out ++ text)
unfolding put
put-if_fits cap out text =
    ap (λ n. if leb cap n then none else some (out ++ text)) (sym (length-append out text))

if_fits-none : (cap : ℕ) (out text : List ℕ) → cap ≤ length out → if_fits cap (out ++ text) ≡ none
if_fits-none cap out text h =
    let full : leb cap (length (out ++ text)) ≡ true = ground (arith, length-append out text) in
    rw full refl

if_fits-some : (cap : ℕ) (text : List ℕ) → length text < cap → if_fits cap text ≡ some text
if_fits-some cap text h = rw (leb_of_lt cap (length text) h) refl

put_points-if_fits :
    (cap : ℕ) (first : Bool) (sources : List SourcePoint) (out : List ℕ)
    → length out < cap
    → put_points cap first sources out ≡ if_fits cap (out ++ points_text first sources)
unfolding put_points points_text
put_points-if_fits cap first [] out h = rw (append-nil out) (sym (if_fits-some cap out h))
put_points-if_fits cap first (src ∷ sources) out h =
    let text = point_text first src in
    let later = points_text false sources in
    elim (Bool-cases (leb cap (length (out ++ text)))) [
      | inl full ↦
          rw (put-if_fits cap out text, full, ← append_assoc out text later)
            (sym (if_fits-none cap (out ++ text) later (leb→le cap (length (out ++ text)) full)))
      | inr room ↦
          rw (put-if_fits cap out text, room, ← append_assoc out text later)
            (put_points-if_fits cap false sources (out ++ text) (ground arith))
    ]

-- The three parts of the text, one after the other.
three_puts :
    (cap : ℕ) (head last : List ℕ) (sources : List SourcePoint)
    → (put cap [] head >>= (λ out. put_points cap true sources out >>= (λ out'. put cap out' last)))
      ≡ if_fits cap (head ++ (points_text true sources ++ last))
three_puts cap head last sources =
    let points = points_text true sources in
    elim (Bool-cases (leb cap (length head))) [
      | inl full ↦
          rw (put-if_fits cap [] head, full)
            (sym (if_fits-none cap head (points ++ last) (leb→le cap (length head) full)))
      | inr room ↦
          rw
            (
              put-if_fits cap [] head,
              room,
              put_points-if_fits cap true sources head (ground arith),
              ← append_assoc head points last,
            )
            (elim (Bool-cases (leb cap (length (head ++ points)))) [
              | inl full ↦ rw full (
                  sym (
                    if_fits-none cap (head ++ points) last
                      (leb→le cap (length (head ++ points)) full)))
              | inr room' ↦ rw room' (put-if_fits cap (head ++ points) last)
            ])
    ]

two_more : (head points : List ℕ) → 2 ≤ length (head ++ (points ++ codes "]}"))
two_more head points =
    omega (arith, length-append head (points ++ codes "]}"), length-append points (codes "]}"))

-- `format_telemetry_json` never cuts its text: it returns the whole of it when that and a closing zero
-- fit, and 0 otherwise.
format_telemetry_json-if_fits :
    (snap : TelemetrySnapshot) (cap : ℕ)
    → format_telemetry_json snap true cap ≡ if_fits cap (json_text snap)
unfolding format_telemetry_json json_text
format_telemetry_json-if_fits snap cap =
    let head = head_text snap in
    let points = points_text true snap.sources in
    elim (Bool-cases (ltb cap 2)) [
      | inl short ↦
          let full : leb cap (length (json_text snap)) ≡ true =
            leb_of_le cap _ (omega (arith, ltb→lt cap 2 short, two_more head points)) in
          rw (short, full) refl
      | inr long ↦ rw long (three_puts cap head (codes "]}") snap.sources)
    ]

-- The bytes of the labels.
unfoldable pub label_bytes : List (String × ℕ) → ℕ
label_bytes [] = 0
label_bytes ((label, value) ∷ fields) = length (codes label) + label_bytes fields

unfoldable pub count : List (String × ℕ) → ℕ
count [] = 0
count (field ∷ fields) = suc (count fields)

length-fields_text-le :
    (fields : List (String × ℕ))
    → length (fields_text fields) ≤ label_bytes fields + 20 * count fields
unfolding fields_text label_bytes count
length-fields_text-le [] = omega arith
length-fields_text-le ((label, value) ∷ fields) = omega (
  arith,
  length-fields_text-le fields,
  length-append (codes label) (decimal value ++ fields_text fields),
  length-append (decimal value) (fields_text fields),
  length-decimal-le value,
)

length-head_text-le : (snap : TelemetrySnapshot) → length (head_text snap) ≤ 1000
unfolding head_text label_bytes count
length-head_text-le snap = omega (
  arith,
  length-fields_text-le (head_fields snap),
  length-append (fields_text (head_fields snap)) (codes "},\"sources\":["),
)

length-comma-le :
    (first : Bool) (text : List ℕ)
    → length ((if first then [] else codes ",") ++ text) ≤ 1 + length text
length-comma-le true text = omega arith
length-comma-le false text = omega arith

length-point_text-le : (first : Bool) (src : SourcePoint) → length (point_text first src) ≤ 150
unfolding point_text
length-point_text-le first src =
    let e = codes ",\"seq\":" ++ (decimal src.sequence ++ codes "}") in
    let d = codes ",\"p\":" ++ (decimal src.publishes ++ e) in
    let c = codes ",\"y\":" ++ (signed_decimal src.y ++ d) in
    let b = codes ",\"x\":" ++ (signed_decimal src.x ++ c) in
    let a = codes "{\"id\":" ++ (decimal src.id ++ b) in
    let start = length-comma-le first a in
    omega (
      arith,
      start,
      length-append (decimal src.sequence) (codes "}"),
      length-append (decimal src.publishes) e,
      length-append (signed_decimal src.y) d,
      length-append (signed_decimal src.x) c,
      length-append (decimal src.id) b,
      length-decimal-le src.id,
      length-decimal-le src.publishes,
      length-decimal-le src.sequence,
      length-signed_decimal-le src.x,
      length-signed_decimal-le src.y,
    )

length-points_text-le :
    (first : Bool) (sources : List SourcePoint)
    → length (points_text first sources) ≤ 150 * length sources
unfolding points_text
length-points_text-le first [] = omega arith
length-points_text-le first (src ∷ sources) = omega (
  arith,
  length-append (point_text first src) (points_text false sources),
  length-point_text-le first src,
  length-points_text-le false sources,
)

length-json_text-lt :
    (snap : TelemetrySnapshot) → length snap.sources ≤ max_points → length (json_text snap) < 4096
unfolding json_text
length-json_text-lt snap h = omega (
  arith,
  length-append (head_text snap) (points_text true snap.sources ++ codes "]}"),
  length-append (points_text true snap.sources) (codes "]}"),
  length-head_text-le snap,
  length-points_text-le true snap.sources,
)

-- The observer's array of 4096 bytes always holds the text of what it collects, whatever the mapping
-- holds: formatting never returns 0, and the text is below the 8000 bytes that one event may have.
pub format-collect :
    (w : Memcpy WindowState) (layout : Layout) (now_ns : ℕ)
    → let snap = collect_telemetry w layout now_ns in
      (format_telemetry_json snap true 4096 ≡ some (json_text snap))
      × (2 ≤ length (json_text snap))
      × (length (json_text snap) < 8000)
unfolding json_text
format-collect w layout now_ns =
    let snap = collect_telemetry w layout now_ns in
    let small = length-json_text-lt snap (collect_telemetry-max_points w layout now_ns) in
    (
      format_telemetry_json-if_fits snap 4096 ∙ if_fits-some 4096 (json_text snap) small,
      two_more (head_text snap) (points_text true snap.sources),
      omega (arith, small),
    )
