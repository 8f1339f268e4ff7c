-- ===== src/Compute/Stages/Final.antt =====
-- What the last snapshot of src/compute.cpp holds, however the threads interleave.
use ratehub.Prelude.{
  ℕ, ◌<◌, ◌≡◌, refl, sym, ◌∙◌, subst, true, false, Option, none, some, List, get_or, arith,
}
use ratehub.Types.{Record, max_sources}
use ratehub.SpscRing.{SpscRing}
use ratehub.Seqlock.{Seqlock}
use ratehub.Layout.{ShmControl, SourceState, WindowState, Snapshot, blank_window}
use ratehub.Compute.{Memcpy, Fast, take_snapshot}
use ratehub.Compute.Shown.{IsShown}
use ratehub.Compute.Rows.{AreWindows, get_or-snapshot_rows_from}
use ratehub.Compute.Stages.Copied.{final_window, Copied}
use ratehub.Compute.Stages.Inv.{WindowGood, SnapshotGood, Inv, fast-Inv, window-Inv}
use ratehub.Compute.Stages.{FastAt, WindowAt, Stages, Step, Reach, start}

module _ (m : Memcpy SourceState) (w : Memcpy WindowState) where
  -- What the other steps leave as it was.
  window_other :
      (s : Stages) (ring : SpscRing Record) (control : ShmControl) (snapshot : Option Snapshot)
      (at : WindowAt)
      → WindowGood m w s at
      → WindowGood m w (record s { ring = ring; control = control; snapshot = snapshot }) at
  unfolding WindowGood
  window_other s ring control snapshot WindowAt.testing g = tt
  window_other s ring control snapshot (WindowAt.passing id false) g = tt
  window_other s ring control snapshot (WindowAt.passing id true) g = g
  window_other s ring control snapshot WindowAt.ended g = g

  snapshot_other :
      (s : Stages) (ring : SpscRing Record) (control : ShmControl) (snapshot : Option Snapshot)
      → SnapshotGood m w s snapshot
      → SnapshotGood m w (record s { ring = ring; control = control }) snapshot
  unfolding SnapshotGood
  snapshot_other s ring control none g = tt
  snapshot_other s ring control (some snap) g = g

  -- A snapshot taken at the end of the last pass.
  snapshot_taken :
      (s t : Stages)
      → t ≡ record s {
        snapshot = some (take_snapshot w s.control s.windows);
        control = record s.control { snapshot_done = 1 };
      }
      → s.window_at ≡ WindowAt.ended
      → WindowGood m w s WindowAt.ended
      → SnapshotGood m w t (some (take_snapshot w s.control s.windows))
  unfolding SnapshotGood WindowGood Copied take_snapshot
  snapshot_taken s t e at (ended, copied) =
      subst (λ t'. SnapshotGood m w t' (some (take_snapshot w s.control s.windows))) (sym e)
        (
          ended,
          at,
          λ i below valid.
              get_or-snapshot_rows_from w max_sources 0 i i s.windows below (omega arith)
              ∙ copied i below valid,
        )

  step-Inv : (s t : Stages) → Inv m w s → Step m w s t → Inv m w t
  step-Inv s t v (Step.fast_step e) = fast-Inv m w s t v e
  step-Inv s t v (Step.window_step e) = window-Inv m w s t v e
  step-Inv s t v (Step.take free done e) = subst (Inv m w) (sym e) (record {
    shown = v.shown;
    windows = v.windows;
    fast_done = v.fast_done;
    window_done = v.window_done;
    good = λ up.
        let at = v.window_done (λ zero_flag. done zero_flag up) in
        (
          window_other s s.ring _ _ s.window_at (v.good up).0,
          snapshot_taken s _ refl at (subst (WindowGood m w s) at (v.good up).0),
        );
  })
  step-Inv s t v (Step.ingest r e) = subst (Inv m w) (sym e) (record {
    shown = v.shown;
    windows = v.windows;
    fast_done = v.fast_done;
    window_done = v.window_done;
    good = λ up. (
      window_other s _ s.control s.snapshot s.window_at (v.good up).0,
      snapshot_other s _ s.control s.snapshot (v.good up).1,
    );
  })
  step-Inv s t v (Step.ingest_ends e) = subst (Inv m w) (sym e) (record {
    shown = v.shown;
    windows = v.windows;
    fast_done = v.fast_done;
    window_done = v.window_done;
    good = λ up. (
      window_other s s.ring _ s.snapshot s.window_at (v.good up).0,
      snapshot_other s s.ring _ s.snapshot (v.good up).1,
    );
  })
  step-Inv s t v (Step.shut_down e) = subst (Inv m w) (sym e) (record {
    shown = v.shown;
    windows = v.windows;
    fast_done = v.fast_done;
    window_done = v.window_done;
    good = λ up. absurd (omega arith);
  })

  reach-Inv : (s t : Stages) → Inv m w s → Reach m w s t → Inv m w t
  reach-Inv s t v Reach.here = v
  reach-Inv s t v (Reach.later {t = u} before e) = step-Inv u t (reach-Inv s u v before) e

  start-Inv :
      (ring : SpscRing Record) (control : ShmControl) (f : Fast) (windows : List Seqlock)
      → IsShown m f
      → AreWindows w windows
      → control.fast_done ≡ 0
      → control.window_done ≡ 0
      → Inv m w (start m w ring control f windows)
  unfolding WindowGood SnapshotGood
  start-Inv ring control f windows v a fast_done window_done = record {
    shown = v;
    windows = a;
    fast_done = λ h. absurd (h fast_done);
    window_done = λ h. absurd (h window_done);
    good = λ up. (tt, tt);
  }

  -- Without a shutdown the snapshot is taken after the end of the 5 ms thread.
  pub snapshot-ended :
      (ring : SpscRing Record) (control : ShmControl) (f : Fast) (windows : List Seqlock)
      (s : Stages) (snap : Snapshot)
      → IsShown m f
      → AreWindows w windows
      → control.fast_done ≡ 0
      → control.window_done ≡ 0
      → Reach m w (start m w ring control f windows) s
      → s.control.shutdown ≡ 0
      → s.snapshot ≡ some snap
      → s.fast_at ≡ FastAt.ended
  unfolding SnapshotGood
  snapshot-ended ring control f windows s snap v a fd wd run up taken =
      let inv = reach-Inv _ s (start-Inv ring control f windows v a fd wd) run in
      (subst (SnapshotGood m w s) taken (inv.good up).1).0

  pub snapshot-final :
      (ring : SpscRing Record) (control : ShmControl) (f : Fast) (windows : List Seqlock)
      (s : Stages) (snap : Snapshot) (i : ℕ)
      → IsShown m f
      → AreWindows w windows
      → control.fast_done ≡ 0
      → control.window_done ≡ 0
      → Reach m w (start m w ring control f windows) s
      → s.control.shutdown ≡ 0
      → s.snapshot ≡ some snap
      → i < max_sources
      → get_or s.fast.fleet.valid i false ≡ true
      → (s.fast_at ≡ FastAt.ended) × (get_or snap.rows i blank_window ≡ final_window m w s.fast i)
  unfolding SnapshotGood
  snapshot-final ring control f windows s snap i v a fd wd run up taken below valid =
      let inv = reach-Inv _ s (start-Inv ring control f windows v a fd wd) run in
      let (ended, at, rows) = subst (SnapshotGood m w s) taken (inv.good up).1 in
      (ended, rows i below valid)
