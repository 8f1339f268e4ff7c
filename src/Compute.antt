-- ===== src/Compute.antt =====
-- src/compute.cpp: the work of the 5 ms thread on each record, the 25 ms thread's pass over the
-- sources, the rows of the snapshot, and the exit status. Each function is one thread's work with no
-- other thread in between; the interleavings are those of the ring and the seqlock. `memcpy` between a
-- state and the words of a seqlock is a parameter.
pub mod Drain
pub mod Shown
pub mod Rows
pub mod Copies
pub mod Idle
pub mod Unseen
pub mod Watch
pub mod Stages
mod Tests
use ratehub.Prelude.{
  ℕ, zero, suc, ◌+◌, Bool, true, false, not, ◌||◌, List, [], ◌∷◌, length, get_or, set, ◌==◌, ◌≡◌,
  if◌then◌else◌,
}
use ratehub.Prelude.Int.{ℤ, pos}
use ratehub.Prelude.Words.{u32}
use ratehub.Types.{Record, IntegrateStatus, max_sources, blank_record, fast_period_ns}
use ratehub.Fleet.{FleetSoA, integrate}
use ratehub.SpscRing.{SpscRing, try_pop}
use ratehub.Seqlock.{Seqlock, new_seqlock, publish, load}
use ratehub.Layout.{ShmControl, SourceState, WindowState, Snapshot, blank_window}

-- `memcpy` of a trivially copyable type to `size` words and back.
pub record Memcpy (A : Type 0) : Type 0 where
  pub size : ℕ
  pub words : A → List ℕ
  pub value : List ℕ → A
  pub length-words : (a : A) → length (words a) ≡ size
  pub value-words : (a : A) → value (words a) ≡ a

abbrev pub is_ok : IntegrateStatus → Bool
is_ok IntegrateStatus.ok = true
is_ok IntegrateStatus.bad_source = false
is_ok IntegrateStatus.bad_dt = false
is_ok IntegrateStatus.out_of_range = false

-- What the 5 ms thread owns, and the parts of the layout that it alone writes.
pub record Fast : Type 0 where
  pub fleet : FleetSoA
  pub publishes : List ℕ
  pub latest : List Seqlock
  pub heartbeat_compute : ℕ

-- The state that is published for source `id`.
abbrev pub state_of : FleetSoA → ℕ → ℕ → SourceState
state_of fleet id count = record {
  pos_x = get_or fleet.pos_x id (pos 0);
  pos_y = get_or fleet.pos_y id (pos 0);
  vel_x = get_or fleet.vel_x id (pos 0);
  vel_y = get_or fleet.vel_y id (pos 0);
  sequence = get_or fleet.sequence id 0;
  time_ns = get_or fleet.time_ns id (pos 0);
  publishes = count;
  valid = 1;
}

module _ (m : Memcpy SourceState) where
  abbrev pub slot : List Seqlock → ℕ → Seqlock
  slot slots id = get_or slots id (new_seqlock m.size)

  -- What follows a successful `integrate`.
  unfoldable pub publish_record : Fast → FleetSoA → Record → Fast
  publish_record s fleet r =
      let id = r.source_id in
      let count = u32 (get_or s.publishes id 0 + 1) in
      record {
        fleet = fleet;
        publishes = set s.publishes id count;
        latest = set s.latest id (publish (slot s.latest id) (m.words (state_of fleet id count)));
        heartbeat_compute = count;
      }

  -- The body of the drain loop.
  unfoldable pub handle_record : Fast → Record → Fast
  handle_record s r =
      let (status, fleet) = integrate s.fleet r (pos fast_period_ns) in
      if is_ok status then publish_record s fleet r else record s { fleet = fleet }

  unfoldable pub handle_records : Fast → List Record → Fast
  handle_records s [] = s
  handle_records s (r ∷ rs) = handle_records (handle_record s r) rs

  -- The drain loop, with at most `fuel` rounds: whether it took a record, the ring, and the state.
  -- `1024` is `2 ^ 10`, and `held` is the record before the loop.
  unfoldable pub drain : ℕ → Record → SpscRing Record → Fast → Bool × SpscRing Record × Fast
  drain zero held ring s = (false, ring, s)
  drain (suc fuel) held ring s =
      let (popped, r, ring') = try_pop 10 blank_record ring held in
      let rest = drain fuel r ring' (handle_record s r) in
      if popped then (true, rest.1, rest.2) else (false, ring, s)

-- The window of a source state.
abbrev pub window_of : SourceState → WindowState
window_of source = record {
  pos_x = source.pos_x;
  pos_y = source.pos_y;
  sequence = source.sequence;
  publishes = source.publishes;
}

module _ (m : Memcpy SourceState) (w : Memcpy WindowState) where
  -- The body of the loop of `publish_windows` on the source's two slots: a `continue` leaves the
  -- window's slot. A load that fails writes nothing to `source`, which is then not used.
  unfoldable pub publish_window : Seqlock → Seqlock → Seqlock
  publish_window latest window =
      let (loaded, raw) = load m.size latest [] in
      let source = m.value raw in
      if not loaded || source.valid == 0
      then window
      else publish window (w.words (window_of source))

  -- The loop over the sources from `id` on, with `left` rounds left.
  unfoldable pub publish_windows_from : ℕ → ℕ → List Seqlock → List Seqlock → List Seqlock
  publish_windows_from zero id latest windows = windows
  publish_windows_from (suc left) id latest windows = publish_windows_from left (suc id) latest (
      set windows id (
        publish_window (get_or latest id (new_seqlock m.size))
          (get_or windows id (new_seqlock w.size))))

  unfoldable pub publish_windows : List Seqlock → List Seqlock → List Seqlock
  unfolding publish_windows_from
  publish_windows latest windows = publish_windows_from max_sources 0 latest windows

module _ (w : Memcpy WindowState) where
  -- The row of the snapshot that the 100 ms thread makes of a window's slot.
  unfoldable pub snapshot_row : Seqlock → WindowState
  snapshot_row window =
      let (loaded, raw) = load w.size window [] in if loaded then w.value raw else blank_window

  -- The loop over the sources from `id` on, with `left` rounds left.
  unfoldable pub snapshot_rows_from : ℕ → ℕ → List Seqlock → List WindowState
  snapshot_rows_from zero id windows = []
  snapshot_rows_from (suc left) id windows =
      snapshot_row (get_or windows id (new_seqlock w.size))
      ∷ snapshot_rows_from left (suc id) windows

  unfoldable pub take_snapshot : ShmControl → List Seqlock → Snapshot
  unfolding snapshot_rows_from
  take_snapshot control windows = record {
    generation = control.generation;
    rows = snapshot_rows_from max_sources 0 windows;
  }

-- The result of `run_compute` after the joins, by the fault flag.
unfoldable pub exit_code : ShmControl → ℕ
exit_code control = if control.fault == 0 then 0 else 3
