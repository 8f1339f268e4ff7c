-- ===== src/Ingest/Tests.antt =====
-- Runs of src/ingest.cpp with small capacities: a queue of one frame, and a ring of one record.
use ratehub.Prelude.{◌≡◌, refl, true, false, some, List, [], ◌∷◌, ◌++◌, arith}
use ratehub.Types.{Record, blank_record}
use ratehub.Frame.{decode_frame}
use ratehub.BoundedQueue.{waits, push, pop, close}
use ratehub.SpscRing.{try_push, try_pop, empty_ring, next_index}
use ratehub.SpscRing.Refine.{contents}
use ratehub.Ingest.{Source, Frames, State, SourceStep, FrameStep, Step, Reach, start}
use ratehub.Ingest.Sample.{wire, wire_status, decoded}
use ratehub.Ingest.Records.{good_records}
use ratehub.Ingest.Order.{ingest_order, ingest_complete}
use ratehub.Ingest.Hang.{ingest_hangs}

-- A whole run over a file of one good frame.
abbrev one_done : State
one_done = record {
  file = [];
  source = Source.ended;
  queue = record { slots = wire ∷ []; head = 0; size = 0; closed = true };
  frames = Frames.finished;
  ring = record { slots = decoded ∷ blank_record ∷ []; write = 1; read = 0 };
  shutdown = 0;
  heartbeat_ingest = 1;
  ingest_done = 1;
  sent = decoded ∷ [];
  received = [];
  dropped = [];
  skipped = [];
}

one_run : Reach 1 1 (start 1 1 (wire ∷ [])) one_done
unfolding push pop close try_push next_index empty_ring
one_run =
    Reach.later
      (Reach.later
        (Reach.later
          (Reach.later
            (Reach.later
              (Reach.later
                (Reach.later
                  (Reach.later
                    (Reach.later
                      (Reach.later Reach.here
                        (Step.by_source (SourceStep.read_frame wire _ refl refl refl)))
                      (Step.by_source (SourceStep.source_goes_on wire refl refl refl)))
                    (Step.by_source (SourceStep.push_frame wire _ refl refl refl)))
                  (Step.by_source (SourceStep.read_end refl refl refl)))
                (Step.by_source (SourceStep.close_queue refl refl)))
              (Step.by_frames (FrameStep.pop_frame wire _ refl refl refl)))
            (Step.by_frames (FrameStep.good_frame wire refl wire_status refl)))
          (Step.by_frames
            (FrameStep.push_record (decode_frame (some wire) blank_record).1 refl refl refl)))
        (Step.by_frames (FrameStep.pop_end _ refl refl refl)))
      (Step.both_joined refl refl refl)

ingest_order_example :
    ((rest : List Record) × (good_records (wire ∷ []) ≡ one_done.sent ++ rest))
    × (one_done.sent ≡ one_done.received ++ contents 1 blank_record one_done.ring)
ingest_order_example =
    ingest_order 1 1 (wire ∷ []) one_done (omega arith) (omega arith) (omega arith) one_run

ingest_complete_example : decoded ∷ [] ≡ good_records (wire ∷ [])
ingest_complete_example =
    ingest_complete 1 1 (wire ∷ []) one_done (omega arith) (omega arith) (omega arith) one_run
      (λ e. absurd (omega arith)) refl

-- The ring holds one record, the frame thread waits with the next one, a frame fills the queue, and the
-- source thread waits with another: then the shutdown is set, and the frame thread leaves.
abbrev hung : State
hung = record {
  file = [];
  source = Source.pushing wire;
  queue = record { slots = wire ∷ []; head = 0; size = 1; closed = false };
  frames = Frames.finished;
  ring = record { slots = decoded ∷ blank_record ∷ []; write = 1; read = 0 };
  shutdown = 1;
  heartbeat_ingest = 3;
  ingest_done = 0;
  sent = decoded ∷ [];
  received = [];
  dropped = decoded ∷ [];
  skipped = [];
}

hung_run : Reach 1 1 (start 1 1 (wire ∷ wire ∷ wire ∷ wire ∷ [])) hung
unfolding push pop try_push next_index empty_ring
hung_run =
    Reach.later
      (Reach.later
        (Reach.later
          (Reach.later
            (Reach.later
              (Reach.later
                (Reach.later
                  (Reach.later
                    (Reach.later
                      (Reach.later
                        (Reach.later
                          (Reach.later
                            (Reach.later
                              (Reach.later
                                (Reach.later
                                  (Reach.later
                                    (Reach.later
                                      (Reach.later Reach.here (
                                        Step.by_source
                                          (SourceStep.read_frame wire _ refl refl refl)))
                                      (Step.by_source
                                        (SourceStep.source_goes_on wire refl refl refl)))
                                    (Step.by_source (SourceStep.push_frame wire _ refl refl refl)))
                                  (Step.by_frames (FrameStep.pop_frame wire _ refl refl refl)))
                                (Step.by_frames (FrameStep.good_frame wire refl wire_status refl)))
                              (Step.by_frames (
                                FrameStep.push_record (decode_frame (some wire) blank_record).1 refl
                                  refl refl)))
                            (Step.by_source (SourceStep.read_frame wire _ refl refl refl)))
                          (Step.by_source (SourceStep.source_goes_on wire refl refl refl)))
                        (Step.by_source (SourceStep.push_frame wire _ refl refl refl)))
                      (Step.by_frames (FrameStep.pop_frame wire _ refl refl refl)))
                    (Step.by_frames (FrameStep.good_frame wire refl wire_status refl)))
                  (Step.by_source (SourceStep.read_frame wire _ refl refl refl)))
                (Step.by_source (SourceStep.source_goes_on wire refl refl refl)))
              (Step.by_source (SourceStep.push_frame wire _ refl refl refl)))
            (Step.by_source (SourceStep.read_frame wire _ refl refl refl)))
          (Step.by_source (SourceStep.source_goes_on wire refl refl refl)))
        (Step.shutdown_set refl))
      (Step.by_frames (
        FrameStep.give_up (decode_frame (some wire) blank_record).1 refl refl
          (λ e. absurd (omega arith)) refl))

-- The consumer may go on, and that changes nothing.
abbrev hung_later : State
hung_later = record hung { ring = record hung.ring { read = 1 }; received = decoded ∷ [] }

consumed : Reach 1 1 hung hung_later
unfolding try_pop next_index
consumed = Reach.later Reach.here (Step.consumer_pops refl refl)

full : push 1 hung.queue wire ≡ waits
unfolding push
full = refl

ingest_hangs_example : (hung_later.source ≡ Source.pushing wire) × (hung_later.ingest_done ≡ 0)
ingest_hangs_example = ingest_hangs 1 1 wire hung hung_later refl refl full refl consumed
