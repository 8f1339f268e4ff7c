-- ===== src/Ingest/Order.antt =====
-- What the ingest process of src/ingest.cpp has sent, at any point of any interleaving.
use ratehub.Prelude.{
  ℕ, ◌^◌, ◌≤◌, ◌<◌, ◌≡◌, ◌≢◌, inr, sym, ap, ◌∙◌, subst, List, [], ◌∷◌, ◌++◌, append_assoc,
  append-nil, arith,
}
use ratehub.Types.{Record, blank_record}
use ratehub.SpscRing.{try_pop}
use ratehub.SpscRing.Refine.{contents, try_pop-IsRing}
use ratehub.Ingest.Records.{records_before, good_records, at_hand, in_work}
use ratehub.SpscRing.Returns.{try_pop_taken}
use ratehub.Ingest.{State, Step, Reach, start}
use ratehub.Ingest.Inv.{Inv, start-Inv}
use ratehub.Ingest.SourceSteps.{source-Inv}
use ratehub.Ingest.FrameSteps.{frame-Inv}

module _ (capacity k : ℕ) (file : List (List ℕ)) where
  Step-Inv : {s t : State} → Step capacity k s t → Inv capacity k file s → Inv capacity k file t
  Step-Inv (Step.by_source step) v = source-Inv capacity k file step v
  Step-Inv (Step.by_frames step) v = frame-Inv capacity k file step v
  Step-Inv {s} (Step.both_joined at done same) v = subst (Inv capacity k file) (sym same) (record {
    queue = v.queue;
    ring = v.ring;
    order = v.order;
    delivered = v.delivered;
    closed = v.closed;
    skips = v.skips;
    drops = v.drops;
    kept = v.kept;
    read_all = v.read_all;
    all_popped = v.all_popped;
    joined = λ d. (at, done);
  })
  Step-Inv {s} (Step.consumer_pops h same) v = subst (Inv capacity k file) (sym same) (record {
    queue = v.queue;
    ring = try_pop-IsRing k blank_record s.ring blank_record v.ring;
    order = v.order;
    delivered =
        v.delivered
        ∙ ap (λ l. s.received ++ l) (try_pop_taken k blank_record s.ring v.ring blank_record h)
        ∙ sym (
            append_assoc s.received ((try_pop k blank_record s.ring blank_record).1 ∷ [])
              (contents k blank_record (try_pop k blank_record s.ring blank_record).2));
    closed = v.closed;
    skips = v.skips;
    drops = v.drops;
    kept = v.kept;
    read_all = v.read_all;
    all_popped = v.all_popped;
    joined = v.joined;
  })
  Step-Inv {s} (Step.shutdown_set same) v = subst (Inv capacity k file) (sym same) (record {
    queue = v.queue;
    ring = v.ring;
    order = v.order;
    delivered = v.delivered;
    closed = v.closed;
    skips = v.skips;
    drops = v.drops;
    kept = λ z. absurd (omega arith);
    read_all = λ z l. absurd (omega arith);
    all_popped = λ z e. absurd (omega arith);
    joined = v.joined;
  })

  pub Reach-Inv :
      {s : State}
      → 0 < capacity
      → 2 ≤ 2 ^ k
      → k < 32
      → Reach capacity k (start capacity k file) s
      → Inv capacity k file s
  Reach-Inv hc two word Reach.here = start-Inv capacity k file hc two word
  Reach-Inv hc two word (Reach.later reach step) = Step-Inv step (Reach-Inv hc two word reach)

  -- In every interleaving of the two threads, the compute process and the supervisor, the records that
  -- the ring has taken are the first records of the good frames of the file, in order; those not yet
  -- received wait in the ring.
  pub ingest_order :
      (s : State)
      → 0 < capacity
      → 2 ≤ 2 ^ k
      → k < 32
      → Reach capacity k (start capacity k file) s
      → ((rest : List Record) × (good_records file ≡ s.sent ++ rest))
        × (s.sent ≡ s.received ++ contents k blank_record s.ring)
  ingest_order s hc two word reach =
      let v = Reach-Inv hc two word reach in ((_, v.order), v.delivered)

  -- Once the process has said that it is done, with no shutdown set, the ring has taken exactly the
  -- records of the good frames of the whole file: none is lost, repeated or out of order.
  pub ingest_complete :
      (s : State)
      → 0 < capacity
      → 2 ≤ 2 ^ k
      → k < 32
      → Reach capacity k (start capacity k file) s
      → s.ingest_done ≢ 0
      → s.shutdown ≡ 0
      → s.sent ≡ good_records file
  unfolding in_work at_hand records_before good_records
  ingest_complete s hc two word reach done quiet =
      let v = Reach-Inv hc two word reach in
      let (ended, finished) = v.joined done in
      let (no_drop, no_skip) = v.kept quiet in
      let (_, empty) = v.all_popped quiet finished in
      let at_end = v.read_all quiet (inr ended) in
      sym (v.order ∙ rw (no_drop, finished, empty, ended, no_skip, at_end) (append-nil s.sent))
