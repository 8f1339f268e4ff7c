-- ===== src/Pipeline/Short.antt =====
-- The output file of src/ingest.cpp, src/compute.cpp and src/publish.cpp together for the short file of
-- tools/make_replay.cpp, as docs/DESIGN.md and tests/test_system.cpp give it.
use ratehub.Prelude.Int.{pos}
use ratehub.Publish.{Line}
use ratehub.Pipeline.{Pipeline}

abbrev pub documented : Line
documented = record { id = 1; pos_x = pos 1020; pos_y = pos 0; publishes = 2 }
