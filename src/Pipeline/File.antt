-- ===== src/Pipeline/File.antt =====
-- The output file of a run of src/ingest.cpp, src/compute.cpp and src/publish.cpp together.
use ratehub.Prelude.{
  ℕ, ◌<◌, ◌≡◌, ◌≢◌, refl, sym, ap, ◌∙◌, subst, true, false, not, ◌&&◌, Bool-cases, inl, inr,
  replicate, Option, none, some, List, ◌++◌, get_or, ◌==◌, if◌then◌else◌, arith,
}
use ratehub.Prelude.Int.{pos}
use ratehub.Types.{blank_record, max_sources}
use ratehub.SpscRing.{empty_ring}
use ratehub.SpscRing.Refine.{contents}
use ratehub.Layout.{SourceState, WindowState, Snapshot, new_control}
use ratehub.Ingest.Records.{good_records}
use ratehub.Ingest.Order.{ingest_order, ingest_complete}
use ratehub.Compute.{Memcpy, Fast, handle_records}
use ratehub.Compute.Idle.{fresh, fresh-IsShown, idle_windows, idle_windows-AreWindows}
use ratehub.Compute.Stages.Copied.{final_window}
use ratehub.Compute.Stages.Final.{snapshot-ended, snapshot-final}
use ratehub.Compute.Stages.Handled.{handled_in_order, snapshot-rows}
use ratehub.Compute.Stages.Quiet.{snapshot-unseen}
use ratehub.Publish.{Line, line, lines_from, write_out}
use ratehub.Publish.Laws.{find_line, find_line-lines_from}
use ratehub.Publish.Waiting.{PublishAt}
use ratehub.Publish.Place.{out}
use ratehub.Publish.Final.{publish_loop-final}
use ratehub.Pipeline.{Pipeline, Reach, start}
use ratehub.Pipeline.Agree.{Agree, reach-Agree}

-- The line of source `i` after a run that leaves `f`.
unfoldable pub row_line : ℕ → Fast → Option Line
row_line i f =
    let publishes = get_or f.publishes i 0 in
    if get_or f.fleet.valid i false && not (publishes == 0)
    then some (record {
      id = i;
      pos_x = get_or f.fleet.pos_x i (pos 0);
      pos_y = get_or f.fleet.pos_y i (pos 0);
      publishes = publishes;
    })
    else none

module _ (m : Memcpy SourceState) (w : Memcpy WindowState) (file : List (List ℕ))
    (s : Pipeline) where
  -- The records of the file are those that the 5 ms thread has taken and those left in the ring.
  all_sent :
      Agree m w file s
      → s.compute.control.ingest_done ≢ 0
      → s.compute.control.shutdown ≡ 0
      → good_records file ≡ s.compute.handled ++ contents 10 blank_record s.compute.ring
  all_sent v done up =
      let sent =
        ingest_complete 64 10 file s.ingest (omega arith) (omega arith) (omega arith) v.ingest
          (λ e. done (sym (ap (λ p. p.0) v.flags) ∙ e)) (ap (λ p. p.1) v.flags ∙ up) in
      let (order, delivered) =
        ingest_order 64 10 file s.ingest (omega arith) (omega arith) (omega arith) v.ingest in
      sym sent ∙ delivered ∙ ap (λ p. p.1 ++ contents 10 blank_record p.0) v.ring

  -- The lines of the file, by the snapshot that the publish process keeps.
  file_line :
      Agree m w file s
      → s.compute.control.shutdown ≡ 0
      → (m.value (replicate m.size 0)).valid ≡ 0
      → (w.value (replicate w.size 0)).publishes ≡ 0
      → (snap : Snapshot) → s.compute.snapshot ≡ some snap
      → (i : ℕ) → i < max_sources
      → find_line i (lines_from 0 snap.rows)
        ≡ row_line i (handle_records m (fresh m) s.compute.handled)
  unfolding row_line
  file_line v up zeros no_publishes snap taken i below =
      let ring = empty_ring 10 blank_record in
      let f = handle_records m (fresh m) s.compute.handled in
      let (handled, _) =
        handled_in_order m w (fresh m) ring new_control (idle_windows w) s.compute v.compute in
      let sized =
        snapshot-rows m w (fresh m) ring new_control (idle_windows w) s.compute snap v.compute
          taken in
      let found =
        find_line-lines_from 0 i i snap.rows (subst (λ n. i < n) (sym sized) below) (omega arith) in
      elim (Bool-cases (get_or f.fleet.valid i false)) [
        | inl valid ↦
            let row =
              (snapshot-final m w ring new_control (fresh m) (idle_windows w) s.compute snap i
                (fresh-IsShown m) (idle_windows-AreWindows w) refl refl v.compute up taken below
                (subst (λ f'. get_or f'.fleet.valid i false ≡ true) (sym handled) valid)).1 in
            found
            ∙ ap (λ r. if r.publishes == 0 then none else some (line i r))
                (row ∙ ap (λ f'. final_window m w f' i) handled)
            ∙ ground arith
        | inr unseen ↦
            let quiet =
              snapshot-unseen m w zeros no_publishes ring new_control s.compute snap i v.compute
                taken below
                (subst (λ f'. get_or f'.fleet.valid i false ≡ false) (sym handled) unseen) in
            found ∙ rw (quiet, unseen) refl
      ]

  -- From a new mapping, however the threads of the three processes interleave: once the publish process
  -- is out of its loop with no shutdown set, it writes a file. Every record of a good frame of the replay
  -- file was handled, in order, but for those left in the ring; and the file has, for each source, the
  -- line that a run over the handled records, one after the other, leaves it with, and no line for a
  -- source without an accepted record. What is asked of `memcpy` is that it reads zero words as a state
  -- that is not valid and as a window without a publish.
  pub pipeline_file :
      (m.value (replicate m.size 0)).valid ≡ 0
      → (w.value (replicate w.size 0)).publishes ≡ 0
      → Reach m w (start m w file) s
      → s.publish.at ≡ PublishAt.ended
      → s.publish.shutdown ≡ 0
      → (generation : ℕ) × (lines : List Line) × (write_out true s.publish.publisher.last
          ≡ (0, some (generation, lines)))
        × (good_records file ≡ s.compute.handled ++ contents 10 blank_record s.compute.ring)
        × ((i : ℕ)
            → i < max_sources
            → find_line i lines ≡ row_line i (handle_records m (fresh m) s.compute.handled))
  unfolding write_out
  pipeline_file zeros no_publishes run at up =
      let v = reach-Agree m w file run in
      let up' : s.compute.control.shutdown ≡ 0 = sym v.down ∙ up in
      let (_, snap, kept, _, alone) = publish_loop-final s.publish v.publish at up in
      let joined = alone v.first_attempt in
      let taken : s.compute.snapshot ≡ some snap = sym v.snapshot ∙ ap out joined in
      let ended =
        snapshot-ended m w (empty_ring 10 blank_record) new_control (fresh m) (idle_windows w)
          s.compute snap (fresh-IsShown m) (idle_windows-AreWindows w) refl refl v.compute up'
          taken in
      let (_, done) =
        handled_in_order m w (fresh m) (empty_ring 10 blank_record) new_control (idle_windows w)
          s.compute v.compute in
      (
        snap.generation,
        lines_from 0 snap.rows,
        rw kept refl,
        all_sent v (done up' ended) up',
        file_line v up' zeros no_publishes snap taken,
      )
