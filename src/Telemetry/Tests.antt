-- ===== src/Telemetry/Tests.antt =====
-- Snapshots of src/telemetry.cpp: of a mapping with one source that has published.
use ratehub.Prelude.{◌≤◌, ◌<◌, ◌≡◌, refl, true, some, List, [], ◌∷◌, length, take, replicate}
use ratehub.Prelude.Int.{pos}
use ratehub.Types.{blank_record, max_sources}
use ratehub.SpscRing.{empty_ring}
use ratehub.Seqlock.{Seqlock, new_seqlock, publish, load}
use ratehub.TripleBuffer.{new_buffer}
use ratehub.Layout.{Layout, WindowState, new_control, new_supervisor}
use ratehub.Compute.Copies.{window_memcpy}
use ratehub.Telemetry.{max_points, point, points_from, collect_telemetry, format_telemetry_json}
use ratehub.Telemetry.Points.{shown_points, collect_telemetry-shown}
use ratehub.Telemetry.Fits.{json_text, format-collect}

abbrev moved : WindowState
moved = record { pos_x = pos 7; pos_y = pos 8; sequence = 5; publishes = 2 }

abbrev windows : List Seqlock
windows =
    new_seqlock 4
    ∷ publish (new_seqlock 4) (window_memcpy.words moved)
    ∷ replicate 62 (new_seqlock 4)

abbrev layout : Layout
layout = record {
  control = new_control;
  supervisor = new_supervisor;
  ring = empty_ring 10 blank_record;
  latest = replicate 64 (new_seqlock 8);
  window = windows;
  snapshots = new_buffer (record { generation = 0; rows = [] });
}

-- Source 1 is shown, and source 0 is not.
one_point : points_from window_memcpy 3 0 windows [] ≡ point 1 moved ∷ []
unfolding points_from publish load
one_point = refl

collect_telemetry-shown_example :
    (collect_telemetry window_memcpy layout 12).sources
    ≡ take max_points (shown_points window_memcpy max_sources 0 windows)
collect_telemetry-shown_example = collect_telemetry-shown window_memcpy layout 12

format-collect_example :
    let snap = collect_telemetry window_memcpy layout 12 in
    (format_telemetry_json snap true 4096 ≡ some (json_text snap))
    × (2 ≤ length (json_text snap))
    × (length (json_text snap) < 8000)
format-collect_example = format-collect window_memcpy layout 12
