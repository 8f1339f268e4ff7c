-- ===== src/Roles/Tests.antt =====
-- A compute process of src/compute.cpp that attaches and finds a fault at the joins.
use ratehub.Prelude.{ℕ, ◌≡◌, refl, true, false, none, some, List, [], ◌∷◌}
use ratehub.Prelude.Text.{codes}
use ratehub.Layout.{Layout}
use ratehub.Compute.{exit_code}
use ratehub.Compute.Copies.{source_memcpy, window_memcpy}
use ratehub.Compute.Watch.{crash_requested}
use ratehub.Shm.{System, ShmWorld, new_layout, map_fd, attached, attach_on, shm_open_existing}
use ratehub.Roles.{update, mapped_exit, compute_attached, run_compute}

abbrev name : List ℕ
name = codes "/rh-1"

abbrev system : System
system = record {
  opened = 0 ∷ 1 ∷ 2 ∷ [];
  mapped = [];
  names = λ n. some 9;
  object = λ id. new_layout source_memcpy window_memcpy;
}

abbrev world : ShmWorld
world = record { opens = some 4; new_object = 0; truncates = false; maps = true }

abbrev faulty : Layout → Layout
faulty l = record l { control = record l.control { fault = 1; snapshot_done = 1 } }

faults : (run_compute source_memcpy window_memcpy name none true [] world faulty system).0 ≡ 3
unfolding run_compute compute_attached update mapped_exit exit_code crash_requested
    shm_open_existing attach_on attached map_fd
faults = refl
