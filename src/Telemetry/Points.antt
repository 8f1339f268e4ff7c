-- ===== src/Telemetry/Points.antt =====
-- Which sources src/telemetry.cpp shows.
use ratehub.Prelude.{
  ℕ, zero, suc, ◌≤◌, ◌≡◌, sym, ap, ◌∙◌, inl, inr, Bool, not, ◌&&◌, Bool-cases, List, [], ◌∷◌, ◌++◌,
  append_assoc, append-nil, length, length-append, get_or, take, arith, leb, ◌==◌, if◌then◌else◌,
}
use ratehub.Prelude.Cuts.{take_short, take_full, length-take-le}
use ratehub.Types.{max_sources}
use ratehub.Seqlock.{Seqlock, new_seqlock, load}
use ratehub.Layout.{WindowState, Layout}
use ratehub.Compute.{Memcpy}
use ratehub.Telemetry.{SourcePoint, max_points, point, points_from, collect_telemetry}

module _ (w : Memcpy WindowState) where
  -- Whether the window of source `id` can be read and holds a publish.
  abbrev pub is_shown : List Seqlock → ℕ → Bool
  is_shown windows id =
      let (ok, raw) = load w.size (get_or windows id (new_seqlock w.size)) [] in
      ok && not ((w.value raw).publishes == 0)

  abbrev pub row_of : List Seqlock → ℕ → WindowState
  row_of windows id = w.value (load w.size (get_or windows id (new_seqlock w.size)) []).1

  -- The numbers that a source is shown with.
  abbrev pub shown_point : List Seqlock → ℕ → SourcePoint
  shown_point windows id = record {
    id = id;
    x = (row_of windows id).pos_x;
    y = (row_of windows id).pos_y;
    publishes = (row_of windows id).publishes;
    sequence = (row_of windows id).sequence;
  }

  -- The points of all the sources that can be shown, from source `id` on.
  unfoldable pub shown_points : ℕ → ℕ → List Seqlock → List SourcePoint
  shown_points zero id windows = []
  shown_points (suc left) id windows =
      let rest = shown_points left (suc id) windows in
      if is_shown windows id then shown_point windows id ∷ rest else rest

  points_from-shown :
      (left id : ℕ) (windows : List Seqlock) (points : List SourcePoint)
      → length points ≤ max_points
      → points_from w left id windows points
        ≡ take max_points (points ++ shown_points left id windows)
  unfolding points_from shown_points
  points_from-shown zero id windows points h =
      sym (ap (take max_points) (append-nil points) ∙ take_short max_points points h)
  points_from-shown (suc left) id windows points h =
      let (ok, raw) = load w.size (get_or windows id (new_seqlock w.size)) [] in
      let p = point id (w.value raw) in
      let rest = shown_points left (suc id) windows in
      elim (Bool-cases (load w.size (get_or windows id (new_seqlock w.size)) []).0) [
        | inr locked ↦ rw locked (points_from-shown left (suc id) windows points h)
        | inl loaded ↦ elim (Bool-cases ((w.value raw).publishes == 0)) [
          | inl none ↦ rw (loaded, none) (points_from-shown left (suc id) windows points h)
          | inr some ↦ elim (Bool-cases (leb max_points (length points))) [
            | inl full ↦
                let all : max_points ≤ length points = ground arith in
                rw (loaded, some, full)
                  (sym
                    (take_full max_points points (p ∷ rest) all ∙ take_short max_points points h))
            | inr room ↦
                let fits : length (points ++ (p ∷ [])) ≤ max_points =
                  ground (arith, length-append points (p ∷ [])) in
                rw (loaded, some, room)
                  (points_from-shown left (suc id) windows (points ++ (p ∷ [])) fits
                    ∙ ap (take max_points) (append_assoc points (p ∷ []) rest))
          ]
        ]
      ]

  -- The observer is shown exactly the first 16, in the order of their numbers, of the sources whose
  -- window can be read and holds a publish, each with its number, and with the position, the
  -- count of publishes and the sequence of its window.
  pub collect_telemetry-shown :
      (layout : Layout) (now_ns : ℕ)
      → (collect_telemetry w layout now_ns).sources
        ≡ take max_points (shown_points max_sources 0 layout.window)
  unfolding collect_telemetry
  collect_telemetry-shown layout now_ns =
      points_from-shown max_sources 0 layout.window [] (omega arith)

  pub collect_telemetry-max_points :
      (layout : Layout) (now_ns : ℕ)
      → length (collect_telemetry w layout now_ns).sources ≤ max_points
  collect_telemetry-max_points layout now_ns = omega (
    arith,
    ap length (collect_telemetry-shown layout now_ns),
    length-take-le max_points (shown_points max_sources 0 layout.window),
  )
