-- ===== src/Ingest/FrameSteps.antt =====
-- The steps of the frame thread of src/ingest.cpp keep the invariant.
use ratehub.Prelude.{
  ℕ, refl, sym, ap, ◌∙◌, subst, none, some, List, [], ◌∷◌, ◌++◌, append_assoc, arith,
}
use ratehub.Types.{blank_record}
use ratehub.BoundedQueue.Refine.{pop-IsQueue}
use ratehub.SpscRing.Refine.{contents, try_push-IsRing}
use ratehub.Ingest.Records.{
  records_before, good_records, record_of_ok, record_of_bad, at_hand, in_work,
}
use ratehub.BoundedQueue.Returns.{pop_taken, pop_ended, pop_ended_same}
use ratehub.SpscRing.Returns.{try_push_stored}
use ratehub.Ingest.{FrameStep, State, blank_frame}
use ratehub.Ingest.Inv.{Inv, items}

module _ (capacity k : ℕ) (file : List (List ℕ)) where
  pub frame-Inv :
      {s t : State} → FrameStep capacity k s t → Inv capacity k file s → Inv capacity k file t
  unfolding at_hand in_work records_before good_records
  frame-Inv {s} (FrameStep.pop_frame f q at h same) v =
      let (items_before, closed_after) = pop_taken capacity blank_frame s.queue v.queue f q h in
      subst (Inv capacity k file) (sym same) (record {
        queue = pop-IsQueue capacity blank_frame s.queue v.queue (some f) q h;
        ring = v.ring;
        order = v.order ∙ ap (λ m. s.sent ++ (s.dropped ++ m)) (rw (at, items_before) refl);
        delivered = v.delivered;
        closed = λ c. v.closed (sym closed_after ∙ c);
        skips = v.skips;
        drops = λ a. v.drops (λ x. cc (x, at));
        kept = v.kept;
        read_all = v.read_all;
        all_popped = λ z e. absurd (ground arith);
        joined = λ d. absurd (cc ((v.joined d).1, at));
      })
  frame-Inv {s} (FrameStep.pop_end q at h same) v =
      let (empty, was_closed) = pop_ended capacity blank_frame s.queue v.queue q h in
      subst (Inv capacity k file) (sym same) (record {
        queue = pop-IsQueue capacity blank_frame s.queue v.queue none q h;
        ring = v.ring;
        order =
            v.order
            ∙ ap (λ m. s.sent ++ (s.dropped ++ m))
                (rw (at, pop_ended_same capacity blank_frame s.queue v.queue q h) refl);
        delivered = v.delivered;
        closed = λ c. v.closed was_closed;
        skips = v.skips;
        drops = λ a. v.drops (λ x. cc (x, at));
        kept = v.kept;
        read_all = v.read_all;
        all_popped = λ z e. (
          v.closed was_closed,
          rw (pop_ended_same capacity blank_frame s.queue v.queue q h) empty,
        );
        joined = λ d. absurd (cc ((v.joined d).1, at));
      })
  frame-Inv {s} (FrameStep.bad_frame f at h same) v =
      subst (Inv capacity k file) (sym same) (record {
        queue = v.queue;
        ring = v.ring;
        order =
            v.order
            ∙ ap (λ m. s.sent ++ (s.dropped ++ m))
                (rw
                  (
                    at,
                    record_of_bad f
                        (records_before (items capacity k file s)
                          (at_hand s.source (records_before s.skipped (good_records s.file))))
                        h,
                  )
                  refl);
        delivered = v.delivered;
        closed = v.closed;
        skips = v.skips;
        drops = λ a. v.drops (λ x. cc (x, at));
        kept = v.kept;
        read_all = v.read_all;
        all_popped = λ z e. absurd (ground arith);
        joined = λ d. absurd (cc ((v.joined d).1, at));
      })
  frame-Inv {s} (FrameStep.good_frame f at h same) v =
      subst (Inv capacity k file) (sym same) (record {
        queue = v.queue;
        ring = v.ring;
        order =
            v.order
            ∙ ap (λ m. s.sent ++ (s.dropped ++ m))
                (rw
                  (
                    at,
                    record_of_ok f
                        (records_before (items capacity k file s)
                          (at_hand s.source (records_before s.skipped (good_records s.file))))
                        h,
                  )
                  refl);
        delivered = v.delivered;
        closed = v.closed;
        skips = v.skips;
        drops = λ a. v.drops (λ x. cc (x, at));
        kept = v.kept;
        read_all = v.read_all;
        all_popped = λ z e. absurd (ground arith);
        joined = λ d. absurd (cc ((v.joined d).1, at));
      })
  frame-Inv {s} (FrameStep.push_record r at h same) v =
      subst (Inv capacity k file) (sym same) (record {
        queue = v.queue;
        ring = try_push-IsRing k blank_record s.ring r v.ring;
        order =
            v.order
            ∙ rw (at, v.drops (λ x. cc (x, at)))
                (sym (
                  append_assoc s.sent (r ∷ []) (
                    records_before (items capacity k file s)
                      (at_hand s.source (records_before s.skipped (good_records s.file))))));
        delivered =
            ap (λ l. l ++ (r ∷ [])) v.delivered
            ∙ append_assoc s.received (contents k blank_record s.ring) (r ∷ [])
            ∙ ap (λ l. s.received ++ l) (sym (try_push_stored k blank_record s.ring v.ring r h));
        closed = v.closed;
        skips = v.skips;
        drops = λ a. v.drops (λ x. cc (x, at));
        kept = v.kept;
        read_all = v.read_all;
        all_popped = λ z e. absurd (ground arith);
        joined = λ d. absurd (cc ((v.joined d).1, at));
      })
  frame-Inv {s} (FrameStep.retry_record r at h z same) v = subst (Inv capacity k file) (sym same) v
  frame-Inv {s} (FrameStep.give_up r at h nz same) v =
      subst (Inv capacity k file) (sym same) (record {
        queue = v.queue;
        ring = v.ring;
        order = v.order ∙ rw (at, v.drops (λ x. cc (x, at))) refl;
        delivered = v.delivered;
        closed = v.closed;
        skips = v.skips;
        drops = λ a. absurd (a refl);
        kept = λ z. absurd (nz z);
        read_all = v.read_all;
        all_popped = λ z e. absurd (nz z);
        joined = λ d. absurd (cc ((v.joined d).1, at));
      })
