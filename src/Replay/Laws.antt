-- ===== src/Replay/Laws.antt =====
-- Every frame that tools/make_replay.cpp writes is a good frame of src/frame.cpp.
use ratehub.Prelude.{◌<◌, List, [], ◌∷◌}
use ratehub.Types.{Record, InTypes, max_sources}

-- Each record of the list fits its types and has a known source.
unfoldable pub AllFit : List Record → Type 0
AllFit [] = Unit
AllFit (r ∷ rs) = InTypes r × (r.source_id < max_sources) × AllFit rs
