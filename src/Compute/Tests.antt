-- ===== src/Compute/Tests.antt =====
-- The threads' work of src/compute.cpp at concrete inputs.
use ratehub.Prelude.{◌≡◌, refl, true, false, [], ◌∷◌, get_or}
use ratehub.Prelude.Int.{pos, ◌+ℤ◌, ◌*ℤ◌}
use ratehub.Types.{Record, blank_record}
use ratehub.Fleet.{integrate, step, overflows, next_position, fits_int32, store_row}
use ratehub.Compute.{Fast, handle_record, handle_records, publish_record}
use ratehub.Compute.Copies.{source_memcpy}
use ratehub.Compute.Idle.{fresh}

abbrev sample : Record
sample = record blank_record { source_id = 1; sequence = 9; pos_x = pos 1000; vel_x = pos 2000 }

abbrev begun : Fast
begun = fresh source_memcpy

abbrev after : Fast
after = handle_records source_memcpy begun (sample ∷ [])

valid_after : get_or after.fleet.valid 1 false ≡ true
unfolding handle_records handle_record publish_record integrate step overflows next_position
    fits_int32 store_row ◌+ℤ◌ ◌*ℤ◌
valid_after = refl
