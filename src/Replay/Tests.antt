-- ===== src/Replay/Tests.antt =====
-- The short file of tools/make_replay.cpp.
use ratehub.Prelude.{ℕ, ◌≡◌, refl, true, false, List, [], ◌∷◌, replicate}
use ratehub.Prelude.Text.{codes, bytes_eq}
use ratehub.Replay.{options}

abbrev frame : List ℕ
frame = replicate 38 170

abbrev args : List (List ℕ)
args = codes "r.bin" ∷ codes "--demo" ∷ []

asked : options args (codes "replay.bin") false ≡ (codes "r.bin", true)
unfolding options bytes_eq
asked = refl
