-- ===== src/Compute/Stages/Handled.antt =====
-- The records that the 5 ms thread of src/compute.cpp has taken, in every interleaving.
use ratehub.Prelude.{
  ℕ, zero, suc, length, replicate, Option, none, some, ◌≡◌, ◌≢◌, refl, sym, ap, ◌∙◌, subst, Bool,
  true, false, List, [], ◌∷◌, ◌++◌, arith,
}
use ratehub.Types.{Record, max_sources}
use ratehub.SpscRing.{SpscRing}
use ratehub.Seqlock.{Seqlock}
use ratehub.Layout.{ShmControl, SourceState, WindowState, Snapshot, blank_window}
use ratehub.Compute.{Memcpy, Fast, handle_record, handle_records, snapshot_rows_from, take_snapshot}
use ratehub.Compute.Stages.{FastAt, Stages, FastStep, WindowStep, Step, Reach, start}

handle_records-last :
    (m : Memcpy SourceState) (f : Fast) (rs : List Record) (r : Record)
    → handle_records m f (rs ++ (r ∷ [])) ≡ handle_record m (handle_records m f rs) r
unfolding handle_records
handle_records-last m f [] r = refl
handle_records-last m f (x ∷ rs) r = handle_records-last m (handle_record m f x) rs r

abbrev rows_of : Option Snapshot → List WindowState
rows_of none = replicate max_sources blank_window
rows_of (some snap) = snap.rows

length-snapshot_rows_from :
    (w : Memcpy WindowState) (left id : ℕ) (windows : List Seqlock)
    → length (snapshot_rows_from w left id windows) ≡ left
unfolding snapshot_rows_from
length-snapshot_rows_from w zero id windows = refl
length-snapshot_rows_from w (suc left) id windows =
    ap suc (length-snapshot_rows_from w left (suc id) windows)

length-take_snapshot :
    (w : Memcpy WindowState) (control : ShmControl) (windows : List Seqlock)
    → length (take_snapshot w control windows).rows ≡ max_sources
unfolding take_snapshot
length-take_snapshot w control windows = length-snapshot_rows_from w max_sources 0 windows

-- Whether the 5 ms thread is out of its loop.
abbrev gone : FastAt → Bool
gone FastAt.testing = false
gone (FastAt.draining drained) = false
gone (FastAt.judging drained) = false
gone FastAt.leaving = true
gone FastAt.ended = true

module _ (m : Memcpy SourceState) (w : Memcpy WindowState) (f : Fast) where
  record Inv (s : Stages) : Type 0 where
    pub handled : s.fast ≡ handle_records m f s.handled
    pub rows : (snap : Snapshot) → s.snapshot ≡ some snap → length snap.rows ≡ max_sources
    pub left : s.control.shutdown ≡ 0 → gone s.fast_at ≡ true → s.control.ingest_done ≢ 0

  fast-Inv : (s t : Stages) → Inv s → FastStep m w s t → Inv t
  fast-Inv s t v (FastStep.stop at down e) =
      subst Inv (sym e)
        (record { handled = v.handled; rows = v.rows; left = λ up. absurd (down up) })
  fast-Inv s t v (FastStep.go at up e) =
      subst Inv (sym e) (record { handled = v.handled; rows = v.rows; left = λ up' out. absurd cc })
  fast-Inv s t v (FastStep.take_record drained r held ring at pop e) = subst Inv (sym e) (record {
    handled = ap (λ f'. handle_record m f' r) v.handled ∙ sym (handle_records-last m f s.handled r);
    rows = v.rows;
    left = λ up out. absurd cc;
  })
  fast-Inv s t v (FastStep.find_empty drained held at pop e) =
      subst Inv (sym e) (record { handled = v.handled; rows = v.rows; left = λ up out. absurd cc })
  fast-Inv s t v (FastStep.leave at done e) =
      subst Inv (sym e) (record { handled = v.handled; rows = v.rows; left = λ up out. done })
  fast-Inv s t v (FastStep.stay drained at more e) =
      subst Inv (sym e) (record { handled = v.handled; rows = v.rows; left = λ up out. absurd cc })
  fast-Inv s t v (FastStep.end at e) =
      subst Inv (sym e)
        (record { handled = v.handled; rows = v.rows; left = λ up out. v.left up (ap gone at) })

  window-Inv : (s t : Stages) → Inv s → WindowStep m w s t → Inv t
  window-Inv s t v (WindowStep.go at more up e) =
      subst Inv (sym e) (record { handled = v.handled; rows = v.rows; left = v.left })
  window-Inv s t v (WindowStep.go_last at done e) =
      subst Inv (sym e) (record { handled = v.handled; rows = v.rows; left = v.left })
  window-Inv s t v (WindowStep.copy id last at h e) =
      subst Inv (sym e) (record { handled = v.handled; rows = v.rows; left = v.left })
  window-Inv s t v (WindowStep.again at e) =
      subst Inv (sym e) (record { handled = v.handled; rows = v.rows; left = v.left })
  window-Inv s t v (WindowStep.end at e) =
      subst Inv (sym e) (record { handled = v.handled; rows = v.rows; left = v.left })

  step-Inv : (s t : Stages) → Inv s → Step m w s t → Inv t
  step-Inv s t v (Step.fast_step e) = fast-Inv s t v e
  step-Inv s t v (Step.window_step e) = window-Inv s t v e
  step-Inv s t v (Step.take free done e) = subst Inv (sym e) (record {
    handled = v.handled;
    rows = λ snap taken.
        subst (λ o. length (rows_of o) ≡ max_sources) taken
          (length-take_snapshot w s.control s.windows);
    left = v.left;
  })
  step-Inv s t v (Step.ingest r e) =
      subst Inv (sym e) (record { handled = v.handled; rows = v.rows; left = v.left })
  step-Inv s t v (Step.ingest_ends e) =
      subst Inv (sym e)
        (record { handled = v.handled; rows = v.rows; left = λ up out z. absurd (omega arith) })
  step-Inv s t v (Step.shut_down e) =
      subst Inv (sym e)
        (record { handled = v.handled; rows = v.rows; left = λ up. absurd (omega arith) })

  reach-Inv : (s t : Stages) → Inv s → Reach m w s t → Inv t
  reach-Inv s t v Reach.here = v
  reach-Inv s t v (Reach.later {t = u} before e) = step-Inv u t (reach-Inv s u v before) e

  reached :
      (ring : SpscRing Record) (control : ShmControl) (windows : List Seqlock) (s : Stages)
      → Reach m w (start m w ring control f windows) s
      → Inv s
  unfolding handle_records
  reached ring control windows s run =
      reach-Inv _ s
        (record { handled = refl; rows = λ snap none_yet. absurd cc; left = λ up out. absurd cc })
        run

  -- In every interleaving the working set is that of a run over the records taken so far, one after the
  -- other; and the 5 ms thread ends without a shutdown only after the end of the ingest process.
  pub handled_in_order :
      (ring : SpscRing Record) (control : ShmControl) (windows : List Seqlock) (s : Stages)
      → Reach m w (start m w ring control f windows) s
      → (s.fast ≡ handle_records m f s.handled)
        × (s.control.shutdown ≡ 0 → s.fast_at ≡ FastAt.ended → s.control.ingest_done ≢ 0)
  handled_in_order ring control windows s run =
      let v = reached ring control windows s run in (v.handled, λ up at. v.left up (ap gone at))

  -- A snapshot has a row for each source.
  pub snapshot-rows :
      (ring : SpscRing Record) (control : ShmControl) (windows : List Seqlock) (s : Stages)
      (snap : Snapshot)
      → Reach m w (start m w ring control f windows) s
      → s.snapshot ≡ some snap
      → length snap.rows ≡ max_sources
  snapshot-rows ring control windows s snap run taken =
      (reached ring control windows s run).rows snap taken
