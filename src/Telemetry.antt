-- ===== src/Telemetry.antt =====
-- src/telemetry.cpp and include/ratehub/telemetry.hpp: what the observer collects of the mapping, and
-- the text that it makes of that. The mapping stands still while it is read.
pub mod Points
pub mod Fits
mod Tests
use Prim.Native.String.{String}
use ratehub.Prelude.{
  ℕ, zero, suc, ◌+◌, ◌-◌, ◌*◌, ◌^◌, Bool, true, false, not, ◌&&◌, ◌||◌, Option, none, some, List,
  [], ◌∷◌, ◌++◌, length, get_or, ltb, leb, ◌==◌, if◌then◌else◌, ◌>>=◌,
}
use ratehub.Prelude.Int.{ℤ, pos}
use ratehub.Prelude.Text.{codes, decimal, signed_decimal}
use ratehub.Types.{Record, max_sources}
use ratehub.SpscRing.{occupied}
use ratehub.Seqlock.{Seqlock, new_seqlock, load}
use ratehub.Layout.{ShmControl, SupervisorState, WindowState, Layout}
use ratehub.Compute.{Memcpy}

pub record SourcePoint : Type 0 where
  pub id : ℕ
  pub x : ℤ
  pub y : ℤ
  pub publishes : ℕ
  pub sequence : ℕ

abbrev pub max_points : ℕ
max_points = 16

-- `sources` are the first `source_count` of the array.
pub record TelemetrySnapshot : Type 0 where
  pub ts_ns : ℕ
  pub generation : ℕ
  pub shutdown : ℕ
  pub fault : ℕ
  pub idle : ℕ
  pub ring_occupied : ℕ
  pub ring_capacity : ℕ
  pub overrun_fast : ℕ
  pub overrun_window : ℕ
  pub overrun_snapshot : ℕ
  pub ingest_done : ℕ
  pub fast_done : ℕ
  pub window_done : ℕ
  pub snapshot_done : ℕ
  pub compute_done : ℕ
  pub hb_ingest : ℕ
  pub hb_compute : ℕ
  pub hb_publish : ℕ
  pub hb_fast : ℕ
  pub hb_window : ℕ
  pub hb_snapshot : ℕ
  pub ingest_pid : ℕ
  pub compute_pid : ℕ
  pub publish_pid : ℕ
  pub observe_pid : ℕ
  pub ingest_exit : ℕ
  pub compute_exit : ℕ
  pub publish_exit : ℕ
  pub sources : List SourcePoint

-- The mapping's ring has `2 ^ 10` slots.
abbrev ring_bits : ℕ
ring_bits = 10

abbrev pub point : ℕ → WindowState → SourcePoint
point id row = record {
  id = id;
  x = row.pos_x;
  y = row.pos_y;
  publishes = row.publishes;
  sequence = row.sequence;
}

module _ (w : Memcpy WindowState) where
  -- The loop over the sources, with `left` of them from `id` on, and the points so far.
  unfoldable pub points_from : ℕ → ℕ → List Seqlock → List SourcePoint → List SourcePoint
  points_from zero id windows points = points
  points_from (suc left) id windows points =
      let (ok, raw) = load w.size (get_or windows id (new_seqlock w.size)) [] in
      let row = w.value raw in
      let skipped = points_from left (suc id) windows points in
      let taken = points_from left (suc id) windows (points ++ (point id row ∷ [])) in
      if not ok || row.publishes == 0
      then skipped
      else if leb max_points (length points)
      then points
      else taken

  unfoldable pub collect_telemetry : Layout → ℕ → TelemetrySnapshot
  unfolding points_from
  collect_telemetry layout now_ns =
      let c : ShmControl = layout.control in
      let s : SupervisorState = layout.supervisor in
      record {
        ts_ns = now_ns;
        generation = c.generation;
        shutdown = c.shutdown;
        fault = c.fault;
        idle =
            if not (c.shutdown == 0) && not (c.ingest_done == 0) && not (c.compute_done == 0)
            then 1
            else 0;
        ring_occupied = occupied ring_bits layout.ring;
        ring_capacity = 2 ^ ring_bits - 1;
        overrun_fast = c.overrun_fast;
        overrun_window = c.overrun_window;
        overrun_snapshot = c.overrun_snapshot;
        ingest_done = c.ingest_done;
        fast_done = c.fast_done;
        window_done = c.window_done;
        snapshot_done = c.snapshot_done;
        compute_done = c.compute_done;
        hb_ingest = c.heartbeat_ingest;
        hb_compute = c.heartbeat_compute;
        hb_publish = c.heartbeat_publish;
        hb_fast = c.heartbeat_fast;
        hb_window = c.heartbeat_window;
        hb_snapshot = c.heartbeat_snapshot;
        ingest_pid = s.ingest_pid;
        compute_pid = s.compute_pid;
        publish_pid = s.publish_pid;
        observe_pid = s.observe_pid;
        ingest_exit = s.ingest_exit;
        compute_exit = s.compute_exit;
        publish_exit = s.publish_exit;
        sources = points_from max_sources 0 layout.window [];
      }

-- The text so far, with `text` behind it if that leaves room for the closing zero.
unfoldable pub put : ℕ → List ℕ → List ℕ → Option (List ℕ)
put cap out text = if leb cap (length out + length text) then none else some (out ++ text)

-- Each label of the format and the number behind it.
unfoldable pub fields_text : List (String × ℕ) → List ℕ
fields_text [] = []
fields_text ((label, value) ∷ fields) = codes label ++ (decimal value ++ fields_text fields)

abbrev pub head_fields : TelemetrySnapshot → List (String × ℕ)
head_fields snap =
    ("{\"ts_ns\":", snap.ts_ns)
    ∷ (",\"generation\":", snap.generation)
    ∷ (",\"shutdown\":", snap.shutdown)
    ∷ (",\"fault\":", snap.fault)
    ∷ (",\"idle\":", snap.idle)
    ∷ (",\"ring\":{\"occupied\":", snap.ring_occupied)
    ∷ (",\"capacity\":", snap.ring_capacity)
    ∷ ("},\"overrun\":{\"fast\":", snap.overrun_fast)
    ∷ (",\"window\":", snap.overrun_window)
    ∷ (",\"snapshot\":", snap.overrun_snapshot)
    ∷ ("},\"done\":{\"ingest\":", snap.ingest_done)
    ∷ (",\"fast\":", snap.fast_done)
    ∷ (",\"window\":", snap.window_done)
    ∷ (",\"snapshot\":", snap.snapshot_done)
    ∷ (",\"compute\":", snap.compute_done)
    ∷ ("},\"hb\":{\"ingest\":", snap.hb_ingest)
    ∷ (",\"compute\":", snap.hb_compute)
    ∷ (",\"publish\":", snap.hb_publish)
    ∷ (",\"fast\":", snap.hb_fast)
    ∷ (",\"window\":", snap.hb_window)
    ∷ (",\"snapshot\":", snap.hb_snapshot)
    ∷ ("},\"pids\":{\"ingest\":", snap.ingest_pid)
    ∷ (",\"compute\":", snap.compute_pid)
    ∷ (",\"publish\":", snap.publish_pid)
    ∷ (",\"observe\":", snap.observe_pid)
    ∷ ("},\"exits\":{\"ingest\":", snap.ingest_exit)
    ∷ (",\"compute\":", snap.compute_exit)
    ∷ (",\"publish\":", snap.publish_exit)
    ∷ []

unfoldable pub head_text : TelemetrySnapshot → List ℕ
head_text snap = fields_text (head_fields snap) ++ codes "},\"sources\":["

-- `first` is `i == 0`.
unfoldable pub point_text : Bool → SourcePoint → List ℕ
point_text first src =
    (if first then [] else codes ",")
    ++ (codes "{\"id\":"
        ++ (decimal src.id
            ++ (codes ",\"x\":"
                ++ (signed_decimal src.x
                    ++ (codes ",\"y\":"
                        ++ (signed_decimal src.y
                            ++ (codes ",\"p\":"
                                ++ (decimal src.publishes
                                    ++ (codes ",\"seq\":"
                                        ++ (decimal src.sequence ++ codes "}"))))))))))

-- The loop over the points.
unfoldable pub put_points : ℕ → Bool → List SourcePoint → List ℕ → Option (List ℕ)
put_points cap first [] out = some out
put_points cap first (src ∷ sources) out = do
  out' ← put cap out (point_text first src)
  put_points cap false sources out'

-- The text in `out`, or `none` where the source returns 0; `given` tells whether `out` is not null.
unfoldable pub format_telemetry_json : TelemetrySnapshot → Bool → ℕ → Option (List ℕ)
format_telemetry_json snap given cap = if not given || ltb cap 2 then none else (do
  out ← put cap [] (head_text snap)
  out' ← put_points cap true snap.sources out
  put cap out' (codes "]}"))
