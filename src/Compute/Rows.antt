-- ===== src/Compute/Rows.antt =====
-- From the working set of src/compute.cpp to the snapshot: one pass of the 25 ms thread, and the rows
-- that the 100 ms thread collects.
use ratehub.Prelude.{
  ℕ, zero, suc, ◌+◌, ◌%◌, ◌≤◌, ◌<◌, ◌≡◌, ◌≢◌, refl, sym, ap, ◌∙◌, subst, true, false, List, [],
  length, get_or, length-set, get_or-set_self, get_or-set_ne, inl, inr, arith, Bool-cases, ◌==◌,
  ==_iff,
}
use ratehub.Types.{Record, max_sources}
use ratehub.Seqlock.{Seqlock, new_seqlock, publish, load}
use ratehub.Seqlock.Alone.{load-publish}
use ratehub.Layout.{ShmControl, SourceState, WindowState, blank_window}
use ratehub.Compute.{
  Memcpy, Fast, slot, state_of, handle_records, window_of, publish_window, publish_windows_from,
  publish_windows, snapshot_row, snapshot_rows_from, take_snapshot,
}
use ratehub.Compute.Shown.{IsShown, handle_records-shown}

pub get_or-snapshot_rows_from :
    (w : Memcpy WindowState) (left id i j : ℕ) (windows : List Seqlock)
    → i < left
    → id + i ≡ j
    → get_or (snapshot_rows_from w left id windows) i blank_window
      ≡ snapshot_row w (get_or windows j (new_seqlock w.size))
unfolding snapshot_rows_from
get_or-snapshot_rows_from w zero id i j windows h e = absurd (omega arith)
get_or-snapshot_rows_from w (suc left) id zero j windows h e =
    let same : id ≡ j = omega arith in
    ap (λ k. snapshot_row w (get_or windows k (new_seqlock w.size))) same
get_or-snapshot_rows_from w (suc left) id (suc i) j windows h e =
    get_or-snapshot_rows_from w left (suc id) i j windows (omega arith) (omega arith)

-- The windows' slots are at rest.
pub record AreWindows (w : Memcpy WindowState) (windows : List Seqlock) : Type 0 where
  pub tables : length windows ≡ max_sources
  pub even : (i : ℕ) → (get_or windows i (new_seqlock w.size)).seq % 2 ≡ 0
  pub sized : (i : ℕ) → length (get_or windows i (new_seqlock w.size)).words ≡ w.size

module _ (m : Memcpy SourceState) (w : Memcpy WindowState) where
  publish_windows_from-before :
      (left id i : ℕ) (latest windows : List Seqlock)
      → i < id
      → get_or (publish_windows_from m w left id latest windows) i (new_seqlock w.size)
        ≡ get_or windows i (new_seqlock w.size)
  unfolding publish_windows_from
  publish_windows_from-before zero id i latest windows h = refl
  publish_windows_from-before (suc left) id i latest windows h =
      publish_windows_from-before left (suc id) i latest _ (omega arith)
      ∙ get_or-set_ne windows id i _ (new_seqlock w.size) (λ e. absurd (omega arith))

  get_or-publish_windows_from :
      (left id i : ℕ) (latest windows : List Seqlock)
      → id ≤ i
      → i < id + left
      → id + left ≤ length windows
      → get_or (publish_windows_from m w left id latest windows) i (new_seqlock w.size)
        ≡ publish_window m w (slot m latest i) (get_or windows i (new_seqlock w.size))
  unfolding publish_windows_from
  get_or-publish_windows_from zero id i latest windows h h' k = absurd (omega arith)
  get_or-publish_windows_from (suc left) id i latest windows h h' k = elim (Bool-cases (id == i)) [
    | inl e ↦
        let same = (==_iff id i).0 e in
        subst
          (λ j.
            get_or (publish_windows_from m w (suc left) id latest windows) j (new_seqlock w.size)
            ≡ publish_window m w (slot m latest j) (get_or windows j (new_seqlock w.size)))
          same
          (publish_windows_from-before left (suc id) id latest _ (omega arith)
            ∙ get_or-set_self windows id _ (new_seqlock w.size) (omega arith))
    | inr e ↦
        let ne : id ≢ i = λ met. cc (e, (==_iff id i).1 met) in
        get_or-publish_windows_from left (suc id) i latest _ (omega arith) (omega arith)
          (omega (arith, length-set windows id _))
        ∙ ap (publish_window m w (slot m latest i))
            (get_or-set_ne windows id i _ (new_seqlock w.size) ne)
  ]

  pub snapshot_row-publish_window :
      (latest window : Seqlock) (source : SourceState)
      → load m.size latest [] ≡ (true, m.words source)
      → source.valid ≡ 1
      → window.seq % 2 ≡ 0
      → length window.words ≡ w.size
      → snapshot_row w (publish_window m w latest window) ≡ window_of source
  unfolding snapshot_row publish_window
  snapshot_row-publish_window latest window source loaded valid even sized =
      let published =
        subst
          (λ n.
            load n (publish window (w.words (window_of source))) []
            ≡ (true, w.words (window_of source)))
          (w.length-words (window_of source))
          (load-publish window (w.words (window_of source)) []
            (sized ∙ sym (w.length-words (window_of source))) even) in
      rw (loaded, m.value-words source, valid, published, w.value-words (window_of source)) refl

  -- From tables at rest, with each valid source shown: after any records, one pass of the 25 ms
  -- thread and one collection give a snapshot in which the row of each source with an accepted
  -- sample is its position and sequence in the working set and the number of its publishes.
  snapshot-fleet :
      (s : Fast) (rs : List Record) (windows : List Seqlock) (control : ShmControl) (i : ℕ)
      → IsShown m s
      → AreWindows w windows
      → i < max_sources
      → get_or (handle_records m s rs).fleet.valid i false ≡ true
      → get_or
          (take_snapshot w control
            (publish_windows m w (handle_records m s rs).latest windows)).rows
          i
          blank_window
        ≡ window_of (
            state_of (handle_records m s rs).fleet i (get_or (handle_records m s rs).publishes i 0))
  unfolding take_snapshot publish_windows
  snapshot-fleet s rs windows control i v a h valid =
      get_or-snapshot_rows_from w max_sources 0 i i _ h (omega arith)
      ∙ ap (snapshot_row w) (
          get_or-publish_windows_from max_sources 0 i (handle_records m s rs).latest windows
            (omega arith) (omega arith) (omega (arith, a.tables)))
      ∙ snapshot_row-publish_window _ _ _ (handle_records-shown m s rs i [] v valid) refl (a.even i)
          (a.sized i)
