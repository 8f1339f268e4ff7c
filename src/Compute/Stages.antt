-- ===== src/Compute/Stages.antt =====
-- The three working threads of src/compute.cpp run together on the done flags, with the ingest process
-- beside them. Of that process only this is kept: it may push any record at any time, and store its flag
-- at any time; Pipeline has its own steps instead. A step is one test, one record, one source of a pass
-- over the windows, or the whole of a snapshot: unless there is a shutdown the windows no longer change
-- by then. Heartbeats, times and the counters of overruns decide nothing here, and are left out.
pub mod Copied
mod Tests
pub mod Inv
pub mod Final
pub mod Handled
pub mod Quiet
use ratehub.Prelude.{
  ℕ, zero, suc, ◌+◌, ◌<◌, ◌≡◌, ◌≢◌, ◌⊎◌, Bool, true, false, Option, none, some, List, [], ◌∷◌, ◌++◌,
  get_or, set,
}
use ratehub.Types.{Record, max_sources, blank_record}
use ratehub.SpscRing.{SpscRing, try_push, try_pop}
use ratehub.Seqlock.{Seqlock, new_seqlock}
use ratehub.Layout.{ShmControl, SourceState, WindowState, Snapshot}
use ratehub.Compute.{Memcpy, Fast, handle_record, publish_window, take_snapshot, slot}

-- Where the 5 ms thread stands; `drained` is its variable.
pub data FastAt : Type 0 where
  testing : FastAt
  draining : Bool → FastAt
  judging : Bool → FastAt
  leaving ended : FastAt

-- Where the 25 ms thread stands: before its test, before source `id` of a pass, which may be the last
-- one, or at its end.
pub data WindowAt : Type 0 where
  testing : WindowAt
  passing : ℕ → Bool → WindowAt
  ended : WindowAt

-- `handled` holds the records that the 5 ms thread has taken, in order.
pub record Stages : Type 0 where
  pub ring : SpscRing Record
  pub control : ShmControl
  pub fast : Fast
  pub fast_at : FastAt
  pub windows : List Seqlock
  pub window_at : WindowAt
  pub snapshot : Option Snapshot
  pub handled : List Record

module _ (m : Memcpy SourceState) (w : Memcpy WindowState) where
  pub data FastStep (s t : Stages) : Type 0 where
    stop :
        s.fast_at ≡ FastAt.testing
        → s.control.shutdown ≢ 0
        → t ≡ record s { fast_at = FastAt.leaving }
        → FastStep s t
    go :
        s.fast_at ≡ FastAt.testing
        → s.control.shutdown ≡ 0
        → t ≡ record s { fast_at = FastAt.draining false }
        → FastStep s t
    take_record :
        (drained : Bool) (r held : Record) (ring : SpscRing Record)
        → s.fast_at ≡ FastAt.draining drained
        → try_pop 10 blank_record s.ring held ≡ (true, r, ring)
        → t ≡ record s {
          fast_at = FastAt.draining true;
          ring = ring;
          fast = handle_record m s.fast r;
          handled = s.handled ++ (r ∷ []);
        }
        → FastStep s t
    find_empty :
        (drained : Bool) (held : Record)
        → s.fast_at ≡ FastAt.draining drained
        → (try_pop 10 blank_record s.ring held).0 ≡ false
        → t ≡ record s { fast_at = FastAt.judging drained }
        → FastStep s t
    leave :
        s.fast_at ≡ FastAt.judging false
        → s.control.ingest_done ≢ 0
        → t ≡ record s { fast_at = FastAt.leaving }
        → FastStep s t
    stay :
        (drained : Bool)
        → s.fast_at ≡ FastAt.judging drained
        → (drained ≡ true) ⊎ (s.control.ingest_done ≡ 0)
        → t ≡ record s { fast_at = FastAt.testing }
        → FastStep s t
    end :
        s.fast_at ≡ FastAt.leaving
        → t ≡ record s { fast_at = FastAt.ended; control = record s.control { fast_done = 1 } }
        → FastStep s t

  pub data WindowStep (s t : Stages) : Type 0 where
    go :
        s.window_at ≡ WindowAt.testing
        → s.control.fast_done ≡ 0
        → s.control.shutdown ≡ 0
        → t ≡ record s { window_at = WindowAt.passing 0 false }
        → WindowStep s t
    go_last :
        s.window_at ≡ WindowAt.testing
        → (s.control.fast_done ≡ 0 → s.control.shutdown ≢ 0)
        → t ≡ record s { window_at = WindowAt.passing 0 true }
        → WindowStep s t
    copy :
        (id : ℕ) (last : Bool)
        → s.window_at ≡ WindowAt.passing id last
        → id < max_sources
        → t ≡ record s {
          window_at = WindowAt.passing (suc id) last;
          windows = set s.windows id (
              publish_window m w
                (slot m s.fast.latest id)
                (get_or s.windows id (new_seqlock w.size)));
        }
        → WindowStep s t
    again :
        s.window_at ≡ WindowAt.passing max_sources false
        → t ≡ record s { window_at = WindowAt.testing }
        → WindowStep s t
    end :
        s.window_at ≡ WindowAt.passing max_sources true
        → t
          ≡ record s { window_at = WindowAt.ended; control = record s.control { window_done = 1 } }
        → WindowStep s t

  -- The snapshot, and what the other processes do.
  pub data Step (s t : Stages) : Type 0 where
    fast_step : FastStep s t → Step s t
    window_step : WindowStep s t → Step s t
    take :
        s.snapshot ≡ none
        → (s.control.window_done ≡ 0 → s.control.shutdown ≢ 0)
        → t ≡ record s {
          snapshot = some (take_snapshot w s.control s.windows);
          control = record s.control { snapshot_done = 1 };
        }
        → Step s t
    ingest : (r : Record) → t ≡ record s { ring = (try_push 10 s.ring r).1 } → Step s t
    ingest_ends : t ≡ record s { control = record s.control { ingest_done = 1 } } → Step s t
    shut_down : t ≡ record s { control = record s.control { shutdown = 1 } } → Step s t

  pub data Reach (s : Stages) : Stages → Type 0 where
    here : Reach s s
    later : {t u : Stages} → Reach s t → Step t u → Reach s u

  -- Before the first step.
  abbrev pub start : SpscRing Record → ShmControl → Fast → List Seqlock → Stages
  start ring control fast windows = record {
    ring = ring;
    control = control;
    fast = fast;
    fast_at = FastAt.testing;
    windows = windows;
    window_at = WindowAt.testing;
    snapshot = none;
    handled = [];
  }
