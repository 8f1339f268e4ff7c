-- ===== src/Roles.antt =====
-- include/ratehub/roles.hpp: the processes of src/ingest.cpp, src/compute.cpp and src/publish.cpp from
-- their start to their exit status. What the threads of a process and the other processes make of the
-- layout until the joins is an argument; the step relations of those files say what that can be.
pub mod Laws
pub mod Fault
mod Tests
use ratehub.Prelude.{ℕ, Bool, true, false, Option, none, some, List, ◌==◌, if◌then◌else◌}
use ratehub.Layout.{Layout, SourceState, WindowState}
use ratehub.Compute.{Memcpy, exit_code}
use ratehub.Compute.Watch.{crash_requested}
use ratehub.Publish.{Round, Publisher, Line, publish_loop, write_out}
use ratehub.Shm.{ShmStatus, ShmMapping, no_mapping, System, ShmWorld, shm_open_existing, shm_close}

-- A store into the object that the mapping reaches.
unfoldable pub update : Option ℕ → (Layout → Layout) → System → System
update none change s = s
update (some id) change s = record s {
  object = λ n. if n == id then change (s.object n) else s.object n;
}

-- The fault flag of that object.
unfoldable pub mapped_exit : Option ℕ → System → ℕ
mapped_exit none s = 0
mapped_exit (some id) s = exit_code (s.object id).control

-- `threads` is what the layout has become at the joins.
unfoldable pub ingest_attached : (Layout → Layout) → ShmStatus × ShmMapping × System → ℕ × System
unfolding update
ingest_attached threads (ShmStatus.io_error, mapping, s) = (1, s)
ingest_attached threads (ShmStatus.schema_mismatch, mapping, s) = (1, s)
ingest_attached threads (ShmStatus.ok, mapping, s) =
    let joined = update mapping.layout threads s in
    let told =
      update mapping.layout (λ l. record l { control = record l.control { ingest_done = 1 } })
        joined in
    (0, (shm_close mapping told).1)

unfoldable pub compute_attached : (Layout → Layout) → ShmStatus × ShmMapping × System → ℕ × System
unfolding update mapped_exit
compute_attached threads (ShmStatus.io_error, mapping, s) = (1, s)
compute_attached threads (ShmStatus.schema_mismatch, mapping, s) = (1, s)
compute_attached threads (ShmStatus.ok, mapping, s) =
    let joined = update mapping.layout threads s in
    let told =
      update mapping.layout (λ l. record l { control = record l.control { compute_done = 1 } })
        joined in
    (mapped_exit mapping.layout told, (shm_close mapping told).1)

-- Whether the loop has ended within the rounds, the status, and what is written.
unfoldable pub publish_attached :
    List Round → Bool → ShmStatus × ShmMapping × System → Bool × ℕ × Option (ℕ × List Line) × System
publish_attached rounds opens (ShmStatus.io_error, mapping, s) = (true, 1, none, s)
publish_attached rounds opens (ShmStatus.schema_mismatch, mapping, s) = (true, 1, none, s)
publish_attached rounds opens (ShmStatus.ok, mapping, s) =
    let (ended, p) = publish_loop rounds (record { last = none; beats = 0 }) in
    let (rc, file) = write_out opens p.last in (ended, rc, file, (shm_close mapping s).1)

module _ (m : Memcpy SourceState) (w : Memcpy WindowState) where
  unfoldable pub run_ingest : List ℕ → ShmWorld → (Layout → Layout) → System → ℕ × System
  run_ingest name world threads s =
      ingest_attached threads (shm_open_existing m w world name no_mapping s)

  -- The status, the files that exist, and the system.
  unfoldable pub run_compute :
      List ℕ
      → Option (List ℕ)
      → Bool
      → List (List ℕ)
      → ShmWorld
      → (Layout → Layout)
      → System
      → ℕ × List (List ℕ) × System
  run_compute name crash writable files world threads s =
      let (crashes, files') = crash_requested crash writable name files in
      let (rc, s') = compute_attached threads (shm_open_existing m w world name no_mapping s) in
      if crashes then (2, files', s) else (rc, files', s')

  unfoldable pub run_publish :
      List ℕ → ShmWorld → List Round → Bool → System → Bool × ℕ × Option (ℕ × List Line) × System
  run_publish name world rounds opens s =
      publish_attached rounds opens (shm_open_existing m w world name no_mapping s)
