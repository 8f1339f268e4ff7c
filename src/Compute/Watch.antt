-- ===== src/Compute/Watch.antt =====
-- The watchdog of src/compute.cpp, and the crash on request with which a restart is tried out.
pub mod Laws
use ratehub.Prelude.{
  ℕ, ◌+◌, ◌-◌, ◌≤◌, ◌≡◌, refl, sym, ap, ◌∙◌, inl, inr, Bool, true, false, not, ◌||◌, Bool-cases,
  Option, none, some, List, [], ◌∷◌, ◌++◌, arith, ◌==◌, if◌then◌else◌,
}
use ratehub.Prelude.Text.{codes, bytes_eq, bytes_eq_refl}
use ratehub.Types.{fast_period_ns, window_period_ns, snapshot_period_ns}
use ratehub.Pace.{heartbeat_stalled, stall_limit_ns}
use ratehub.Layout.{ShmControl}

unfoldable pub stopped : ShmControl → Bool
stopped control = not (control.shutdown == 0)

-- The body of the watchdog's loop, up to its sleep.
unfoldable pub watchdog_round : ℕ → ShmControl → ShmControl
watchdog_round now c =
    let late_fast =
      heartbeat_stalled now c.heartbeat_fast (stall_limit_ns fast_period_ns)
        (not (c.fast_done == 0)) in
    let late_window =
      heartbeat_stalled now c.heartbeat_window (stall_limit_ns window_period_ns)
        (not (c.window_done == 0)) in
    let late_snapshot =
      heartbeat_stalled now c.heartbeat_snapshot (stall_limit_ns snapshot_period_ns) false in
    if late_fast || (late_window || late_snapshot) then record c { fault = 1 } else c

-- The loop over the times and the control blocks of its rounds, as the others have left them: whether
-- it has ended, and whether it has stored a fault.
unfoldable pub watchdog : List (ℕ × ShmControl) → Bool × Bool
watchdog [] = (false, false)
watchdog ((now, c) ∷ rounds) =
    let (ended, faulted) = watchdog rounds in
    if not (c.snapshot_done == 0) || stopped c
    then (true, false)
    else (ended, not ((watchdog_round now (record c { fault = 0 })).fault == 0) || faulted)

unfoldable pub marker_of : List ℕ → List ℕ
marker_of [] = []
marker_of (c ∷ name) = (if c == b'/' then b'_' else c) ∷ marker_of name

unfoldable pub exists : List ℕ → List (List ℕ) → Bool
exists path [] = false
exists path (file ∷ files) = bytes_eq path file || exists path files

unfoldable pub create_marker : Bool → List ℕ → List (List ℕ) → Bool × List (List ℕ)
create_marker writable path files =
    if exists path files
    then (false, files)
    else if writable
    then (true, path ∷ files)
    else (false, files)

-- `crash` is the environment variable, `files` are the files that exist, and `writable` tells whether a
-- new one can be made: the result, and the files after it.
unfoldable pub crash_requested :
    Option (List ℕ) → Bool → List ℕ → List (List ℕ) → Bool × List (List ℕ)
unfolding create_marker
crash_requested none writable shm_name files = (false, files)
crash_requested (some crash) writable shm_name files =
    if bytes_eq crash (codes "always")
    then (true, files)
    else if not (bytes_eq crash (codes "once"))
    then (false, files)
    else create_marker writable (codes "/tmp/ratehub-once" ++ marker_of shm_name) files
