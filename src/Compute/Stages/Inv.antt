-- ===== src/Compute/Stages/Inv.antt =====
-- What holds of the threads of src/compute.cpp in every interleaving, kept by the steps of the first two.
use ratehub.Prelude.{
  ℕ, suc, ◌<◌, ◌≡◌, ◌≢◌, ◌⊎◌, refl, sym, subst, inl, inr, Bool, true, false, Option, none, some,
  get_or, set, arith,
}
use ratehub.Types.{max_sources}
use ratehub.Seqlock.{new_seqlock}
use ratehub.Layout.{SourceState, WindowState, Snapshot, blank_window}
use ratehub.Compute.{Memcpy, slot, publish_window}
use ratehub.Compute.Shown.{IsShown, handle_record-IsShown}
use ratehub.Compute.Rows.{AreWindows}
use ratehub.Compute.Stages.Copied.{final_window, Copied, set_window-AreWindows, set_window-Copied}
use ratehub.Compute.Stages.{FastAt, WindowAt, Stages, FastStep, WindowStep}

module _ (m : Memcpy SourceState) (w : Memcpy WindowState) where
  unfoldable pub WindowGood : Stages → WindowAt → Type 0
  WindowGood s WindowAt.testing = Unit
  WindowGood s (WindowAt.passing id false) = Unit
  WindowGood s (WindowAt.passing id true) =
      (s.fast_at ≡ FastAt.ended) × Copied m w s.fast s.windows id
  WindowGood s WindowAt.ended = (s.fast_at ≡ FastAt.ended) × Copied m w s.fast s.windows max_sources

  unfoldable pub SnapshotGood : Stages → Option Snapshot → Type 0
  SnapshotGood s none = Unit
  SnapshotGood s (some snap) =
      (s.fast_at ≡ FastAt.ended)
      × (s.window_at ≡ WindowAt.ended)
      × ((i : ℕ)
          → i < max_sources
          → get_or s.fast.fleet.valid i false ≡ true
          → get_or snap.rows i blank_window ≡ final_window m w s.fast i)

  pub record Inv (s : Stages) : Type 0 where
    pub shown : IsShown m s.fast
    pub windows : AreWindows w s.windows
    pub fast_done : s.control.fast_done ≢ 0 → s.fast_at ≡ FastAt.ended
    pub window_done : s.control.window_done ≢ 0 → s.window_at ≡ WindowAt.ended
    pub good : s.control.shutdown ≡ 0 → WindowGood s s.window_at × SnapshotGood s s.snapshot

  -- While the 5 ms thread runs, nothing is promised.
  window_idle :
      (s t : Stages) (at : WindowAt) → s.fast_at ≢ FastAt.ended → WindowGood s at → WindowGood t at
  unfolding WindowGood
  window_idle s t WindowAt.testing ne g = tt
  window_idle s t (WindowAt.passing id false) ne g = tt
  window_idle s t (WindowAt.passing id true) ne (e, g) = absurd (ne e)
  window_idle s t WindowAt.ended ne (e, g) = absurd (ne e)

  snapshot_idle :
      (s t : Stages) (snapshot : Option Snapshot)
      → (s.fast_at ≢ FastAt.ended) ⊎ (s.window_at ≢ WindowAt.ended)
      → SnapshotGood s snapshot
      → SnapshotGood t snapshot
  unfolding SnapshotGood
  snapshot_idle s t none ne g = tt
  snapshot_idle s t (some snap) (inl ne) (e, e', g) = absurd (ne e)
  snapshot_idle s t (some snap) (inr ne) (e, e', g) = absurd (ne e')

  -- A step of the 5 ms thread before its end.
  fast_idle :
      (s t : Stages)
      → s.fast_at ≢ FastAt.ended
      → t.window_at ≡ s.window_at
      → t.snapshot ≡ s.snapshot
      → WindowGood s s.window_at × SnapshotGood s s.snapshot
      → WindowGood t t.window_at × SnapshotGood t t.snapshot
  fast_idle s t ne same same' (g, h) = (
    subst (WindowGood t) (sym same) (window_idle s t s.window_at ne g),
    subst (SnapshotGood t) (sym same') (snapshot_idle s t s.snapshot (inl ne) h),
  )

  pub fast-Inv : (s t : Stages) → Inv s → FastStep m w s t → Inv t
  fast-Inv s t v (FastStep.stop at down e) = subst Inv (sym e) (record {
    shown = v.shown;
    windows = v.windows;
    fast_done = λ h. absurd (cc (at, v.fast_done h));
    window_done = v.window_done;
    good = λ up. absurd (down up);
  })
  fast-Inv s t v (FastStep.go at up e) = subst Inv (sym e) (record {
    shown = v.shown;
    windows = v.windows;
    fast_done = λ h. absurd (cc (at, v.fast_done h));
    window_done = v.window_done;
    good = λ up'. fast_idle s _ (λ ended. cc (at, ended)) refl refl (v.good up');
  })
  fast-Inv s t v (FastStep.take_record drained r held ring at pop e) = subst Inv (sym e) (record {
    shown = handle_record-IsShown m s.fast r v.shown;
    windows = v.windows;
    fast_done = λ h. absurd (cc (at, v.fast_done h));
    window_done = v.window_done;
    good = λ up'. fast_idle s _ (λ ended. cc (at, ended)) refl refl (v.good up');
  })
  fast-Inv s t v (FastStep.find_empty drained held at pop e) = subst Inv (sym e) (record {
    shown = v.shown;
    windows = v.windows;
    fast_done = λ h. absurd (cc (at, v.fast_done h));
    window_done = v.window_done;
    good = λ up'. fast_idle s _ (λ ended. cc (at, ended)) refl refl (v.good up');
  })
  fast-Inv s t v (FastStep.leave at done e) = subst Inv (sym e) (record {
    shown = v.shown;
    windows = v.windows;
    fast_done = λ h. absurd (cc (at, v.fast_done h));
    window_done = v.window_done;
    good = λ up'. fast_idle s _ (λ ended. cc (at, ended)) refl refl (v.good up');
  })
  fast-Inv s t v (FastStep.stay drained at more e) = subst Inv (sym e) (record {
    shown = v.shown;
    windows = v.windows;
    fast_done = λ h. absurd (cc (at, v.fast_done h));
    window_done = v.window_done;
    good = λ up'. fast_idle s _ (λ ended. cc (at, ended)) refl refl (v.good up');
  })
  fast-Inv s t v (FastStep.end at e) = subst Inv (sym e) (record {
    shown = v.shown;
    windows = v.windows;
    fast_done = λ h. refl;
    window_done = v.window_done;
    good = λ up'. fast_idle s _ (λ ended. cc (at, ended)) refl refl (v.good up');
  })

  no_snapshot :
      (s t : Stages)
      → s.window_at ≢ WindowAt.ended
      → t.snapshot ≡ s.snapshot
      → SnapshotGood s s.snapshot
      → SnapshotGood t t.snapshot
  no_snapshot s t ne same h =
      subst (SnapshotGood t) (sym same) (snapshot_idle s t s.snapshot (inr ne) h)

  copy_good :
      (s t : Stages) (id : ℕ) (last : Bool)
      → IsShown m s.fast
      → AreWindows w s.windows
      → id < max_sources
      → t ≡ record s {
        window_at = WindowAt.passing (suc id) last;
        windows = set s.windows id (
            publish_window m w
              (slot m s.fast.latest id)
              (get_or s.windows id (new_seqlock w.size)));
      }
      → WindowGood s (WindowAt.passing id last)
      → WindowGood t (WindowAt.passing (suc id) last)
  unfolding WindowGood
  copy_good s t id false v a h e g = tt
  copy_good s t id true v a h e (ended, copied) =
      subst (λ t'. WindowGood t' (WindowAt.passing (suc id) true)) (sym e)
        (ended, set_window-Copied m w s.fast s.windows id v a h copied)

  pub window-Inv : (s t : Stages) → Inv s → WindowStep m w s t → Inv t
  unfolding WindowGood Copied
  window-Inv s t v (WindowStep.go at more up e) = subst Inv (sym e) (record {
    shown = v.shown;
    windows = v.windows;
    fast_done = v.fast_done;
    window_done = λ h. absurd (cc (at, v.window_done h));
    good = λ up'. (tt, no_snapshot s _ (λ ended. cc (at, ended)) refl (v.good up').1);
  })
  window-Inv s t v (WindowStep.go_last at done e) = subst Inv (sym e) (record {
    shown = v.shown;
    windows = v.windows;
    fast_done = v.fast_done;
    window_done = λ h. absurd (cc (at, v.window_done h));
    good = λ up'. (
      (v.fast_done (λ zero_flag. done zero_flag up'), λ i below valid. absurd (omega arith)),
      no_snapshot s _ (λ ended. cc (at, ended)) refl (v.good up').1,
    );
  })
  window-Inv s t v (WindowStep.copy id last at h e) = subst Inv (sym e) (record {
    shown = v.shown;
    windows = set_window-AreWindows m w s.fast s.windows id v.windows h;
    fast_done = v.fast_done;
    window_done = λ done. absurd (cc (at, v.window_done done));
    good = λ up'. (
      copy_good s _ id last v.shown v.windows h refl (subst (WindowGood s) at (v.good up').0),
      no_snapshot s _ (λ ended. cc (at, ended)) refl (v.good up').1,
    );
  })
  window-Inv s t v (WindowStep.again at e) = subst Inv (sym e) (record {
    shown = v.shown;
    windows = v.windows;
    fast_done = v.fast_done;
    window_done = λ h. absurd (cc (at, v.window_done h));
    good = λ up'. (tt, no_snapshot s _ (λ ended. cc (at, ended)) refl (v.good up').1);
  })
  window-Inv s t v (WindowStep.end at e) = subst Inv (sym e) (record {
    shown = v.shown;
    windows = v.windows;
    fast_done = v.fast_done;
    window_done = λ h. refl;
    good = λ up'. (
      subst (WindowGood s) at (v.good up').0,
      no_snapshot s _ (λ ended. cc (at, ended)) refl (v.good up').1,
    );
  })
