-- ===== src/Compute/Stages/Copied.antt =====
-- One source of a pass of src/compute.cpp over the windows.
use ratehub.Prelude.{
  ℕ, suc, ◌%◌, ◌<◌, ◌≡◌, ◌≢◌, ◌⊎◌, refl, sym, ap, ◌∙◌, subst, inl, inr, true, false, not, ◌||◌,
  Bool-cases, List, [], length, get_or, set, length-set, get_or-set_self, get_or-set_ne, arith,
  ◌==◌, ==_iff,
}
use ratehub.Types.{max_sources}
use ratehub.Seqlock.{Seqlock, new_seqlock, load}
use ratehub.Seqlock.Alone.{publish_lem, load-even}
use ratehub.Layout.{SourceState, WindowState}
use ratehub.Compute.{Memcpy, Fast, slot, state_of, window_of, publish_window, snapshot_row}
use ratehub.Compute.Shown.{IsShown}
use ratehub.Compute.Rows.{AreWindows, snapshot_row-publish_window}

module _ (m : Memcpy SourceState) (w : Memcpy WindowState) where
  -- The window that source `i` must end with.
  abbrev pub final_window : Fast → ℕ → WindowState
  final_window f i = window_of (state_of f.fleet i (get_or f.publishes i 0))

  -- The windows of the valid sources below `n` are those of the working set.
  unfoldable pub Copied : Fast → List Seqlock → ℕ → Type 0
  Copied f windows n =
      (i : ℕ)
      → i < n
      → get_or f.fleet.valid i false ≡ true
      → snapshot_row w (get_or windows i (new_seqlock w.size)) ≡ final_window f i

  -- A slot at rest stays at rest.
  publish_window-rest :
      (latest window : Seqlock)
      → window.seq % 2 ≡ 0
      → length window.words ≡ w.size
      → ((publish_window m w latest window).seq % 2 ≡ 0)
        × (length (publish_window m w latest window).words ≡ w.size)
  unfolding publish_window
  publish_window-rest latest window even sized =
      let (loaded, raw) = load m.size latest [] in
      let source = m.value raw in
      let words = w.words (window_of source) in
      let same = publish_lem window words (sized ∙ sym (w.length-words (window_of source))) in
      elim (Bool-cases (not (load m.size latest []).0 || source.valid == 0)) [
        | inl e ↦ rw e (even, sized)
        | inr e ↦ rw (e, same) (omega (arith, even), w.length-words (window_of source))
      ]

  pub set_window-AreWindows :
      (f : Fast) (windows : List Seqlock) (id : ℕ)
      → AreWindows w windows
      → id < max_sources
      → AreWindows w (
          set windows id
            (publish_window m w (slot m f.latest id) (get_or windows id (new_seqlock w.size))))
  set_window-AreWindows f windows id a h =
      let new = publish_window m w (slot m f.latest id) (get_or windows id (new_seqlock w.size)) in
      let (even, sized) = publish_window-rest (slot m f.latest id) _ (a.even id) (a.sized id) in
      let case : (i : ℕ)
          → (get_or (set windows id new) i (new_seqlock w.size) ≡ new)
            ⊎ (get_or (set windows id new) i (new_seqlock w.size)
                ≡ get_or windows i (new_seqlock w.size)) =
        λ i. elim (Bool-cases (id == i)) [
          | inl e ↦ inl (
              subst (λ j. get_or (set windows id new) j (new_seqlock w.size) ≡ new)
                ((==_iff id i).0 e) (get_or-set_self windows id new _ (omega (arith, a.tables))))
          | inr e ↦ inr (get_or-set_ne windows id i new _ (λ met. cc (e, (==_iff id i).1 met)))
        ] in
      record {
        tables = length-set windows id new ∙ a.tables;
        even = λ i. elim (case i) [ inl e ↦ rw e even | inr e ↦ rw e (a.even i) ];
        sized = λ i. elim (case i) [ inl e ↦ rw e sized | inr e ↦ rw e (a.sized i) ];
      }

  pub set_window-Copied :
      (f : Fast) (windows : List Seqlock) (id : ℕ)
      → IsShown m f
      → AreWindows w windows
      → id < max_sources
      → Copied f windows id
      → Copied f
          (set windows id
            (publish_window m w (slot m f.latest id) (get_or windows id (new_seqlock w.size))))
          (suc id)
  unfolding Copied
  set_window-Copied f windows id v a h copied i below valid =
      let new = publish_window m w (slot m f.latest id) (get_or windows id (new_seqlock w.size)) in
      elim (Bool-cases (id == i)) [
        | inl e ↦
            let same : id ≡ i = (==_iff id i).0 e in
            let valid' : get_or f.fleet.valid id false ≡ true =
              subst (λ j. get_or f.fleet.valid j false ≡ true) (sym same) valid in
            let loaded =
              load-even m.size (slot m f.latest id) [] (v.sized id) (v.even id)
              ∙ ap (λ (t : List ℕ). (true, t)) (v.shown id valid') in
            subst
              (λ j.
                snapshot_row w (get_or (set windows id new) j (new_seqlock w.size))
                ≡ final_window f j)
              same
              (ap (snapshot_row w)
                  (get_or-set_self windows id new (new_seqlock w.size) (omega (arith, a.tables)))
                ∙ snapshot_row-publish_window m w (slot m f.latest id) _ _ loaded refl (a.even id)
                    (a.sized id))
        | inr e ↦
            let ne : id ≢ i = λ met. cc (e, (==_iff id i).1 met) in
            ap (snapshot_row w) (get_or-set_ne windows id i new (new_seqlock w.size) ne)
            ∙ copied i (omega arith) valid
      ]
