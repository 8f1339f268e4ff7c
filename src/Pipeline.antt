-- ===== src/Pipeline.antt =====
-- src/ingest.cpp, src/compute.cpp and src/publish.cpp run together over one mapping, from a new mapping
-- on. A step is a step of one part. Each part keeps what it shares with another one by itself, and a
-- step that changes it changes each copy: the ring, the three flags, and the snapshot.
pub mod Effects
pub mod Agree
pub mod Lost
pub mod File
pub mod Short
mod Frames
mod Run
mod Tests
use ratehub.Prelude.{ℕ, ◌≡◌, ◌≢◌, none, some, List}
use ratehub.Types.{blank_record}
use ratehub.SpscRing.{empty_ring}
use ratehub.Layout.{SourceState, WindowState, Snapshot, new_control}
use ratehub.Ingest as Ingest
use ratehub.Compute.{Memcpy, take_snapshot}
use ratehub.Compute.Idle.{fresh, idle_windows}
use ratehub.Compute.Stages as Stages
use ratehub.Publish.Waiting as Waiting

-- `run_ingest` has a queue of 64 frames, and the ring has `2 ^ 10` slots.
pub record Pipeline : Type 0 where
  pub ingest : Ingest.State
  pub compute : Stages.Stages
  pub publish : Waiting.Waiting

module _ (m : Memcpy SourceState) (w : Memcpy WindowState) where
  abbrev pub start : List (List ℕ) → Pipeline
  start file = record {
    ingest = Ingest.start 64 10 file;
    compute = Stages.start m w (empty_ring 10 blank_record) new_control (fresh m) (idle_windows w);
    publish = Waiting.start;
  }

  pub data Step (s t : Pipeline) : Type 0 where
    source_thread :
        (i : Ingest.State)
        → Ingest.SourceStep 64 10 s.ingest i
        → t ≡ record s { ingest = i }
        → Step s t
    frame_thread :
        (i : Ingest.State)
        → Ingest.FrameStep 64 10 s.ingest i
        → t ≡ record s { ingest = i; compute = record s.compute { ring = i.ring } }
        → Step s t
    ingest_ends :
        s.ingest.source ≡ Ingest.Source.ended
        → s.ingest.frames ≡ Ingest.Frames.finished
        → t ≡ record s {
          ingest = record s.ingest { ingest_done = 1 };
          compute = record s.compute { control = record s.compute.control { ingest_done = 1 } };
        }
        → Step s t
    -- The ingest process's view of the records that the 5 ms thread takes.
    fast_thread :
        (c : Stages.Stages)
        → Stages.FastStep m w s.compute c
        → t ≡ record s {
          ingest = record s.ingest { ring = c.ring; received = c.handled };
          compute = c;
        }
        → Step s t
    window_thread :
        (c : Stages.Stages)
        → Stages.WindowStep m w s.compute c
        → t ≡ record s { compute = c }
        → Step s t
    snapshot_thread :
        s.compute.snapshot ≡ none
        → (s.compute.control.window_done ≡ 0 → s.compute.control.shutdown ≢ 0)
        → t ≡ record s {
          compute = record s.compute {
            snapshot = some (take_snapshot w s.compute.control s.compute.windows);
            control = record s.compute.control { snapshot_done = 1 };
          };
          publish =
              Waiting.offered
                (Waiting.stored s.publish (take_snapshot w s.compute.control s.compute.windows));
        }
        → Step s t
    compute_ends :
        (x : Snapshot)
        → s.compute.fast_at ≡ Stages.FastAt.ended
        → s.compute.window_at ≡ Stages.WindowAt.ended
        → s.publish.compute ≡ Waiting.ComputeAt.published x
        → t ≡ record s {
          publish = record s.publish { compute = Waiting.ComputeAt.joined x; compute_done = 1 };
        }
        → Step s t
    publish_loop :
        (p : Waiting.Waiting)
        → Waiting.LoopStep s.publish p
        → t ≡ record s { publish = p }
        → Step s t
    shut_down :
        t ≡ record s {
          ingest = record s.ingest { shutdown = 1 };
          compute = record s.compute { control = record s.compute.control { shutdown = 1 } };
          publish = record s.publish { shutdown = 1 };
        }
        → Step s t

  pub data Reach (s : Pipeline) : Pipeline → Type 0 where
    here : Reach s s
    later : {t u : Pipeline} → Reach s t → Step t u → Reach s u
