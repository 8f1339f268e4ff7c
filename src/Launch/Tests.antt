-- ===== src/Launch/Tests.antt =====
-- Argument vectors of src/main.cpp.
use ratehub.Prelude.{◌≡◌, refl, [], ◌∷◌}
use ratehub.Prelude.Int.{pos}
use ratehub.Prelude.Text.{codes}
use ratehub.Launch.{Entry, main, web_root_from_exe, before_last_slash}

-- Too few arguments.
usage_shown : main (λ text. pos 0) (codes "ratehub" ∷ codes "run" ∷ []) ≡ Entry.usage
unfolding main
usage_shown = refl

root_found : web_root_from_exe (codes "/opt/bin/ratehub") ≡ codes "/opt/bin/web"
unfolding web_root_from_exe before_last_slash
root_found = refl
