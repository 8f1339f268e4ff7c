-- ===== src/Compute/Stages/Quiet.antt =====
-- What the threads of src/compute.cpp hold, in every interleaving, for a source without an accepted
-- sample.
use ratehub.Prelude.{
  ℕ, ◌<◌, ◌≡◌, refl, sym, ap, ◌∙◌, subst, inl, inr, false, Bool-cases, Option, some, List,
  replicate, get_or, set, length, length-set, get_or-set_self, get_or-set_ne, ◌==◌, ==_iff, arith,
}
use ratehub.Types.{Record, max_sources}
use ratehub.SpscRing.{SpscRing}
use ratehub.Seqlock.{Seqlock, new_seqlock}
use ratehub.Layout.{ShmControl, SourceState, WindowState, Snapshot, blank_window}
use ratehub.Compute.{Memcpy, Fast, slot, publish_window, snapshot_row, take_snapshot}
use ratehub.Compute.Shown.{IsShown, handle_record-IsShown}
use ratehub.Compute.Rows.{get_or-snapshot_rows_from}
use ratehub.Compute.Unseen.{handle_record-unseen, publish_window-new, snapshot_row-new}
use ratehub.Compute.Idle.{fresh, fresh-IsShown, idle_windows, get_or-replicate}
use ratehub.Compute.Stages.{Stages, FastStep, WindowStep, Step, Reach, start}

module _ (m : Memcpy SourceState) (w : Memcpy WindowState) where
  abbrev window_at : List Seqlock → ℕ → Seqlock
  window_at windows i = get_or windows i (new_seqlock w.size)

  -- The slots of source `i`, and its row of the snapshot.
  record IsQuiet (f : Fast) (windows : List Seqlock) (snapshot : Option Snapshot) (i : ℕ)
      : Type 0 where
    pub latest : slot m f.latest i ≡ new_seqlock m.size
    pub window : window_at windows i ≡ new_seqlock w.size
    pub row :
        (snap : Snapshot) → snapshot ≡ some snap → (get_or snap.rows i blank_window).publishes ≡ 0

  record Inv (s : Stages) : Type 0 where
    pub shown : IsShown m s.fast
    pub tables : length s.windows ≡ max_sources
    pub quiet :
        (i : ℕ)
        → i < max_sources
        → get_or s.fast.fleet.valid i false ≡ false
        → IsQuiet s.fast s.windows s.snapshot i

  fast-Inv : (s t : Stages) → Inv s → FastStep m w s t → Inv t
  fast-Inv s t v (FastStep.stop at down e) =
      subst Inv (sym e) (record { shown = v.shown; tables = v.tables; quiet = v.quiet })
  fast-Inv s t v (FastStep.go at up e) =
      subst Inv (sym e) (record { shown = v.shown; tables = v.tables; quiet = v.quiet })
  fast-Inv s t v (FastStep.take_record drained r held ring at pop e) = subst Inv (sym e) (record {
    shown = handle_record-IsShown m s.fast r v.shown;
    tables = v.tables;
    quiet = λ i below unseen.
        let (before, untouched) = handle_record-unseen m s.fast r i v.shown unseen in
        let q = v.quiet i below before in
        record { latest = untouched ∙ q.latest; window = q.window; row = q.row };
  })
  fast-Inv s t v (FastStep.find_empty drained held at pop e) =
      subst Inv (sym e) (record { shown = v.shown; tables = v.tables; quiet = v.quiet })
  fast-Inv s t v (FastStep.leave at done e) =
      subst Inv (sym e) (record { shown = v.shown; tables = v.tables; quiet = v.quiet })
  fast-Inv s t v (FastStep.stay drained at more e) =
      subst Inv (sym e) (record { shown = v.shown; tables = v.tables; quiet = v.quiet })
  fast-Inv s t v (FastStep.end at e) =
      subst Inv (sym e) (record { shown = v.shown; tables = v.tables; quiet = v.quiet })

  module _ (zeros : (m.value (replicate m.size 0)).valid ≡ 0) where
    copy-window :
        (f : Fast) (windows : List Seqlock) (id i : ℕ)
        → id < length windows
        → slot m f.latest i ≡ new_seqlock m.size
        → window_at windows i ≡ new_seqlock w.size
        → window_at
            (set windows id (publish_window m w (slot m f.latest id) (window_at windows id)))
            i
          ≡ new_seqlock w.size
    copy-window f windows id i known latest window = elim (Bool-cases (id == i)) [
      | inl e ↦
          let same : id ≡ i = (==_iff id i).0 e in
          let still : slot m f.latest id ≡ new_seqlock m.size =
            subst (λ j. slot m f.latest j ≡ new_seqlock m.size) (sym same) latest in
          let kept : window_at windows id ≡ new_seqlock w.size =
            subst (λ j. window_at windows j ≡ new_seqlock w.size) (sym same) window in
          subst
            (λ j.
              window_at
                (set windows id (publish_window m w (slot m f.latest id) (window_at windows id))) j
              ≡ new_seqlock w.size)
            same
            (get_or-set_self windows id _ (new_seqlock w.size) known
              ∙ ap (λ l. publish_window m w l (window_at windows id)) still
              ∙ publish_window-new m w (window_at windows id) zeros
              ∙ kept)
      | inr e ↦
          get_or-set_ne windows id i _ (new_seqlock w.size) (λ met. cc (e, (==_iff id i).1 met))
          ∙ window
    ]

    window-Inv : (s t : Stages) → Inv s → WindowStep m w s t → Inv t
    window-Inv s t v (WindowStep.go at more up e) =
        subst Inv (sym e) (record { shown = v.shown; tables = v.tables; quiet = v.quiet })
    window-Inv s t v (WindowStep.go_last at done e) =
        subst Inv (sym e) (record { shown = v.shown; tables = v.tables; quiet = v.quiet })
    window-Inv s t v (WindowStep.copy id last at h e) = subst Inv (sym e) (record {
      shown = v.shown;
      tables = length-set s.windows id _ ∙ v.tables;
      quiet = λ i below unseen.
          let q = v.quiet i below unseen in
          record {
            latest = q.latest;
            window =
                copy-window s.fast s.windows id i (omega (arith, h, v.tables)) q.latest q.window;
            row = q.row;
          };
    })
    window-Inv s t v (WindowStep.again at e) =
        subst Inv (sym e) (record { shown = v.shown; tables = v.tables; quiet = v.quiet })
    window-Inv s t v (WindowStep.end at e) =
        subst Inv (sym e) (record { shown = v.shown; tables = v.tables; quiet = v.quiet })

    module _ (no_publishes : (w.value (replicate w.size 0)).publishes ≡ 0) where
      take-row :
          (control : ShmControl) (windows : List Seqlock) (i : ℕ)
          → i < max_sources
          → window_at windows i ≡ new_seqlock w.size
          → (get_or (take_snapshot w control windows).rows i blank_window).publishes ≡ 0
      unfolding take_snapshot
      take-row control windows i below window =
          let zero_row : get_or (take_snapshot w control windows).rows i blank_window
              ≡ w.value (replicate w.size 0) =
            get_or-snapshot_rows_from w max_sources 0 i i windows below (omega arith)
            ∙ ap (snapshot_row w) window
            ∙ snapshot_row-new m w in
          ap (λ (x : WindowState). x.publishes) zero_row ∙ no_publishes

      row_of_taken :
          (a b : Snapshot) (i : ℕ)
          → (get_or a.rows i blank_window).publishes ≡ 0
          → some a ≡ some b
          → (get_or b.rows i blank_window).publishes ≡ 0
      row_of_taken a b i h e =
          let same : a ≡ b = cc e in
          subst (λ x. (get_or x.rows i blank_window).publishes ≡ 0) same h

      step-Inv : (s t : Stages) → Inv s → Step m w s t → Inv t
      step-Inv s t v (Step.fast_step e) = fast-Inv s t v e
      step-Inv s t v (Step.window_step e) = window-Inv s t v e
      step-Inv s t v (Step.take free done e) = subst Inv (sym e) (record {
        shown = v.shown;
        tables = v.tables;
        quiet = λ i below unseen.
            let q = v.quiet i below unseen in
            record {
              latest = q.latest;
              window = q.window;
              row = λ snap taken.
                  row_of_taken _ snap i (take-row s.control s.windows i below q.window) taken;
            };
      })
      step-Inv s t v (Step.ingest r e) =
          subst Inv (sym e) (record { shown = v.shown; tables = v.tables; quiet = v.quiet })
      step-Inv s t v (Step.ingest_ends e) =
          subst Inv (sym e) (record { shown = v.shown; tables = v.tables; quiet = v.quiet })
      step-Inv s t v (Step.shut_down e) =
          subst Inv (sym e) (record { shown = v.shown; tables = v.tables; quiet = v.quiet })

      reach-Inv : (s t : Stages) → Inv s → Reach m w s t → Inv t
      reach-Inv s t v Reach.here = v
      reach-Inv s t v (Reach.later {t = u} before e) = step-Inv u t (reach-Inv s u v before) e

      -- From tables at rest, if zeros are a source state that is not valid and a window without a
      -- publish: in every interleaving the snapshot has no publish for a source without an accepted
      -- sample.
      pub snapshot-unseen :
          (ring : SpscRing Record) (control : ShmControl) (s : Stages) (snap : Snapshot) (i : ℕ)
          → Reach m w (start m w ring control (fresh m) (idle_windows w)) s
          → s.snapshot ≡ some snap
          → i < max_sources
          → get_or s.fast.fleet.valid i false ≡ false
          → (get_or snap.rows i blank_window).publishes ≡ 0
      snapshot-unseen ring control s snap i run taken below unseen =
          let v =
            reach-Inv _ s
              (record {
                shown = fresh-IsShown m;
                tables = refl;
                quiet = λ j below' unseen'. record {
                  latest = get_or-replicate max_sources j (new_seqlock m.size);
                  window = get_or-replicate max_sources j (new_seqlock w.size);
                  row = λ snap' none_yet. absurd cc;
                };
              })
              run in
          (v.quiet i below unseen).row snap taken
