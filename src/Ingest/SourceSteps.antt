-- ===== src/Ingest/SourceSteps.antt =====
-- The steps of the source thread of src/ingest.cpp keep the invariant.
use ratehub.Prelude.{ℕ, inl, refl, sym, ap, ◌∙◌, subst, true, List, [], ◌∷◌, ◌++◌, arith}
use ratehub.BoundedQueue.{close}
use ratehub.BoundedQueue.Refine.{push-IsQueue}
use ratehub.Ingest.Records.{records_before, good_records, records_before-append, at_hand, in_work}
use ratehub.BoundedQueue.Returns.{push_stored, push_refused}
use ratehub.Ingest.{SourceStep, State, blank_frame}
use ratehub.Ingest.Inv.{Inv, items}

module _ (capacity k : ℕ) (file : List (List ℕ)) where
  pub source-Inv :
      {s t : State} → SourceStep capacity k s t → Inv capacity k file s → Inv capacity k file t
  unfolding at_hand in_work records_before good_records close
  source-Inv {s} (SourceStep.read_frame f rest at e same) v =
      subst (Inv capacity k file) (sym same) (record {
        queue = v.queue;
        ring = v.ring;
        order =
            v.order
            ∙ ap
                (λ m.
                  s.sent
                  ++ (s.dropped ++ in_work s.frames (records_before (items capacity k file s) m)))
                (rw (at, e, v.skips (λ x. cc (x, at)) (λ x. cc (x, at))) refl);
        delivered = v.delivered;
        closed = λ c. absurd (cc (v.closed c, at));
        skips = λ a b. v.skips (λ x. cc (x, at)) (λ x. cc (x, at));
        drops = v.drops;
        kept = v.kept;
        read_all = λ z l. absurd (ground arith);
        all_popped = λ z e. absurd (cc ((v.all_popped z e).0, at));
        joined = λ d. absurd (cc ((v.joined d).0, at));
      })
  source-Inv {s} (SourceStep.read_end at e same) v =
      subst (Inv capacity k file) (sym same) (record {
        queue = v.queue;
        ring = v.ring;
        order =
            v.order
            ∙ ap
                (λ m.
                  s.sent
                  ++ (s.dropped ++ in_work s.frames (records_before (items capacity k file s) m)))
                (rw (at, e, v.skips (λ x. cc (x, at)) (λ x. cc (x, at))) refl);
        delivered = v.delivered;
        closed = λ c. absurd (cc (v.closed c, at));
        skips = λ a b. absurd (a refl);
        drops = v.drops;
        kept = v.kept;
        read_all = λ z l. e;
        all_popped = λ z e. absurd (cc ((v.all_popped z e).0, at));
        joined = λ d. absurd (cc ((v.joined d).0, at));
      })
  source-Inv {s} (SourceStep.source_stops f at h same) v =
      subst (Inv capacity k file) (sym same) (record {
        queue = v.queue;
        ring = v.ring;
        order =
            v.order
            ∙ ap
                (λ m.
                  s.sent
                  ++ (s.dropped ++ in_work s.frames (records_before (items capacity k file s) m)))
                (rw (at, v.skips (λ x. cc (x, at)) (λ x. cc (x, at))) refl);
        delivered = v.delivered;
        closed = λ c. absurd (cc (v.closed c, at));
        skips = λ a b. absurd (a refl);
        drops = v.drops;
        kept = λ z. absurd (h z);
        read_all = λ z l. absurd (h z);
        all_popped = λ z e. absurd (cc ((v.all_popped z e).0, at));
        joined = λ d. absurd (cc ((v.joined d).0, at));
      })
  source-Inv {s} (SourceStep.source_goes_on f at h same) v =
      subst (Inv capacity k file) (sym same) (record {
        queue = v.queue;
        ring = v.ring;
        order =
            v.order
            ∙ ap
                (λ m.
                  s.sent
                  ++ (s.dropped ++ in_work s.frames (records_before (items capacity k file s) m)))
                (rw (at, v.skips (λ x. cc (x, at)) (λ x. cc (x, at))) refl);
        delivered = v.delivered;
        closed = λ c. absurd (cc (v.closed c, at));
        skips = λ a b. v.skips (λ x. cc (x, at)) (λ x. cc (x, at));
        drops = v.drops;
        kept = v.kept;
        read_all = λ z l. absurd (ground arith);
        all_popped = λ z e. absurd (cc ((v.all_popped z e).0, at));
        joined = λ d. absurd (cc ((v.joined d).0, at));
      })
  source-Inv {s} (SourceStep.push_frame f q at h same) v =
      let (items_after, closed_after) = push_stored capacity blank_frame s.queue v.queue f q h in
      subst (Inv capacity k file) (sym same) (record {
        queue = push-IsQueue capacity blank_frame s.queue v.queue f true q h;
        ring = v.ring;
        order =
            v.order
            ∙ ap (λ m. s.sent ++ (s.dropped ++ in_work s.frames m))
                (rw
                  (
                    at,
                    items_after,
                    records_before-append (items capacity k file s) (f ∷ [])
                        (records_before s.skipped (good_records s.file)),
                  )
                  refl);
        delivered = v.delivered;
        closed = λ c. absurd (cc (v.closed (sym closed_after ∙ c), at));
        skips = λ a b. v.skips (λ x. cc (x, at)) (λ x. cc (x, at));
        drops = v.drops;
        kept = v.kept;
        read_all = λ z l. absurd (ground arith);
        all_popped = λ z e. absurd (cc ((v.all_popped z e).0, at));
        joined = λ d. absurd (cc ((v.joined d).0, at));
      })
  source-Inv {s} (SourceStep.push_refused f q at h same) v =
      let (was_closed, _) = push_refused capacity blank_frame s.queue v.queue f q h in
      absurd (cc (v.closed was_closed, at))
  source-Inv {s} (SourceStep.close_queue at same) v =
      subst (Inv capacity k file) (sym same) (record {
        queue = record {
          storage = v.queue.storage;
          head_in = v.queue.head_in;
          size_in = v.queue.size_in;
        };
        ring = v.ring;
        order =
            v.order
            ∙ ap
                (λ m.
                  s.sent
                  ++ (s.dropped ++ in_work s.frames (records_before (items capacity k file s) m)))
                (rw (at) refl);
        delivered = v.delivered;
        closed = λ c. refl;
        skips = λ a b. absurd (b refl);
        drops = v.drops;
        kept = v.kept;
        read_all = λ z l. v.read_all z (inl at);
        all_popped = λ z e. (refl, (v.all_popped z e).1);
        joined = λ d. absurd (cc ((v.joined d).0, at));
      })
