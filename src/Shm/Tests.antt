-- ===== src/Shm/Tests.antt =====
-- A region of src/shm_region.cpp created, attached and closed.
use ratehub.Prelude.{ℕ, ◌≡◌, refl, true, false, none, some, List, [], ◌∷◌}
use ratehub.Prelude.Text.{codes}
use ratehub.Compute.Copies.{source_memcpy, window_memcpy}
use ratehub.Shm.{
  ShmStatus, ShmMapping, no_mapping, System, ShmWorld, new_layout, map_fd, created, create_on,
  shm_create, shm_open_existing,
}
use ratehub.Shm.Laws.{shm_open_existing-create}

abbrev name : List ℕ
name = codes "/rh-1"

abbrev idle : System
idle = record {
  opened = 0 ∷ 1 ∷ 2 ∷ [];
  mapped = [];
  names = λ n. none;
  object = λ id. new_layout source_memcpy window_memcpy;
}

abbrev creating : ShmWorld
creating = record { opens = some 3; new_object = 9; truncates = true; maps = true }

abbrev attaching : ShmWorld
attaching = record { opens = some 4; new_object = 0; truncates = false; maps = true }

abbrev after_create : ShmStatus × ShmMapping × System
after_create = shm_create source_memcpy window_memcpy creating name no_mapping idle

create_succeeds : after_create.0 ≡ ShmStatus.ok
unfolding shm_create create_on created map_fd
create_succeeds = refl

shm_open_existing-create_example :
    let (status, mapping, s') = after_create in
    let (status', mapping', s'') =
      shm_open_existing source_memcpy window_memcpy attaching name no_mapping s' in
    (status' ≡ ShmStatus.ok)
    × (mapping' ≡ record { layout = some 9; fd = some 4; owner = false; name = name })
    × (s''.object 9 ≡ new_layout source_memcpy window_memcpy)
shm_open_existing-create_example =
    shm_open_existing-create source_memcpy window_memcpy creating attaching name 4 idle
      create_succeeds refl refl
