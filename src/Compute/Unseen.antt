-- ===== src/Compute/Unseen.antt =====
-- The sources of src/compute.cpp without an accepted sample.
use ratehub.Prelude.{
  ℕ, ◌≡◌, refl, sym, ap, ◌∙◌, inl, inr, true, false, Bool-cases, [], replicate, length-replicate,
  get_or, get_or-set_ne, ◌==◌, ==_iff,
}
use ratehub.Prelude.Int.{pos}
use ratehub.Types.{Record, IntegrateStatus, fast_period_ns}
use ratehub.Fleet.{FleetSoA, integrate}
use ratehub.Fleet.Rows.{Row, row, stepped, integrate-row, integrate-refused}
use ratehub.Seqlock.{Seqlock, new_seqlock}
use ratehub.Seqlock.Alone.{load-even}
use ratehub.Layout.{SourceState, WindowState}
use ratehub.Compute.{
  Memcpy, Fast, slot, is_ok, handle_record, publish_record, publish_window, snapshot_row,
}
use ratehub.Compute.Shown.{IsShown, is_ok_iff, not_ok}

module _ (m : Memcpy SourceState) (f : Fast) (r : Record) where
  abbrev status : IntegrateStatus
  status = (integrate f.fleet r (pos fast_period_ns)).0

  abbrev fleet_after : FleetSoA
  fleet_after = (integrate f.fleet r (pos fast_period_ns)).1

  handle_record_bad : is_ok status ≡ false → handle_record m f r ≡ f
  unfolding handle_record
  handle_record_bad e =
      rw (e, integrate-refused f.fleet r (pos fast_period_ns) (not_ok status e)) refl

  handle_record_good : is_ok status ≡ true → handle_record m f r ≡ publish_record m f fleet_after r
  unfolding handle_record
  handle_record_good e = rw e refl

  publish_record-unseen :
      (i : ℕ)
      → IsShown m f
      → status ≡ IntegrateStatus.ok
      → get_or fleet_after.valid i false ≡ false
      → (get_or f.fleet.valid i false ≡ false)
        × (slot m (publish_record m f fleet_after r).latest i ≡ slot m f.latest i)
  unfolding publish_record
  publish_record-unseen i v ok unseen =
      let after = integrate-row f.fleet r fast_period_ns i v.fleet ok in
      elim (Bool-cases (r.source_id == i)) [
        | inl met ↦
            let new : row fleet_after i ≡ stepped f.fleet r fast_period_ns = after ∙ rw met refl in
            absurd (cc (unseen, ap (λ (x : Row). x.valid) new))
        | inr ne ↦
            let old : row fleet_after i ≡ row f.fleet i = after ∙ rw ne refl in
            (
              sym (ap (λ (x : Row). x.valid) old) ∙ unseen,
              get_or-set_ne f.latest r.source_id i _ _
                  (λ same. cc (ne, (==_iff r.source_id i).1 same)),
            )
      ]

  -- A source that is still without an accepted sample was so before, and its slot is untouched.
  pub handle_record-unseen :
      (i : ℕ)
      → IsShown m f
      → get_or (handle_record m f r).fleet.valid i false ≡ false
      → (get_or f.fleet.valid i false ≡ false)
        × (slot m (handle_record m f r).latest i ≡ slot m f.latest i)
  unfolding publish_record
  handle_record-unseen i v unseen = elim (Bool-cases (is_ok status)) [
    | inl e ↦
        let same = handle_record_good e in
        let (before, untouched) =
          publish_record-unseen i v (is_ok_iff status e)
            (sym (ap (λ (g : Fast). get_or g.fleet.valid i false) same) ∙ unseen) in
        (before, ap (λ (g : Fast). slot m g.latest i) same ∙ untouched)
    | inr e ↦
        let same = handle_record_bad e in
        (
          sym (ap (λ (g : Fast). get_or g.fleet.valid i false) same) ∙ unseen,
          ap (λ (g : Fast). slot m g.latest i) same,
        )
  ]

module _ (m : Memcpy SourceState) (w : Memcpy WindowState) where
  -- From a slot of zeros a pass copies nothing.
  pub publish_window-new :
      (window : Seqlock)
      → (m.value (replicate m.size 0)).valid ≡ 0
      → publish_window m w (new_seqlock m.size) window ≡ window
  unfolding publish_window
  publish_window-new window zeros =
      rw (load-even m.size (new_seqlock m.size) [] (length-replicate m.size 0) refl, zeros) refl

  pub snapshot_row-new : snapshot_row w (new_seqlock w.size) ≡ w.value (replicate w.size 0)
  unfolding snapshot_row
  snapshot_row-new =
      rw (load-even w.size (new_seqlock w.size) [] (length-replicate w.size 0) refl) refl
