-- ===== src/Pipeline/Run.antt =====
-- The first part of a run of src/ingest.cpp, src/compute.cpp and src/publish.cpp over the short file of
-- tools/make_replay.cpp, for its tests: until the 5 ms thread has ended.
use ratehub.Prelude.{refl, inl, true, false, [], ◌∷◌, replicate, arith}
use ratehub.Types.{Record, blank_record}
use ratehub.SpscRing.{SpscRing, try_push, try_pop, next_index, empty_ring}
use ratehub.BoundedQueue.{push, pop, close}
use ratehub.Ingest as Ingest
use ratehub.Pipeline.Frames.{wire, wire_status, decoded, short_file}
use ratehub.Compute.Copies.{source_memcpy, window_memcpy}
use ratehub.Compute.{handle_record}
use ratehub.Compute.Stages as Stages
use ratehub.Pipeline.{Pipeline, Step, Reach, start}

abbrev pub first : Pipeline
first = start source_memcpy window_memcpy short_file

abbrev pub Run : Pipeline → Pipeline → Type 0
Run s t = Reach source_memcpy window_memcpy s t

-- The source thread has queued both frames.
abbrev queued : Pipeline
queued = record first {
  ingest = record first.ingest {
    file = [];
    source = Ingest.Source.ended;
    queue = record first.ingest.queue {
      slots = wire 1 ∷ wire 2 ∷ replicate 62 Ingest.blank_frame;
      size = 2;
      closed = true;
    };
    heartbeat_ingest = 2;
  };
}

source_runs : Run first queued
unfolding push close
source_runs =
    Reach.later
      (Reach.later
        (Reach.later
          (Reach.later
            (Reach.later
              (Reach.later
                (Reach.later
                  (Reach.later Reach.here (
                    Step.source_thread _ (Ingest.SourceStep.read_frame (wire 1) _ refl refl refl)
                      refl))
                  (Step.source_thread _ (Ingest.SourceStep.source_goes_on (wire 1) refl refl refl)
                    refl))
                (Step.source_thread _ (Ingest.SourceStep.push_frame (wire 1) _ refl refl refl)
                  refl))
              (Step.source_thread _ (Ingest.SourceStep.read_frame (wire 2) _ refl refl refl) refl))
            (Step.source_thread _ (Ingest.SourceStep.source_goes_on (wire 2) refl refl refl) refl))
          (Step.source_thread _ (Ingest.SourceStep.push_frame (wire 2) _ refl refl refl) refl))
        (Step.source_thread _ (Ingest.SourceStep.read_end refl refl refl) refl))
      (Step.source_thread _ (Ingest.SourceStep.close_queue refl refl) refl)

abbrev both_wait : SpscRing Record
both_wait = record {
  slots = decoded 1 ∷ decoded 2 ∷ replicate 1022 blank_record;
  write = 2;
  read = 0;
}

abbrev ingest_over : Pipeline
ingest_over = record queued {
  ingest = record queued.ingest {
    queue = record queued.ingest.queue { head = 2; size = 0 };
    frames = Ingest.Frames.finished;
    ring = both_wait;
    ingest_done = 1;
    sent = decoded 1 ∷ decoded 2 ∷ [];
  };
  compute = record queued.compute {
    ring = both_wait;
    control = record queued.compute.control { ingest_done = 1 };
  };
}

ingest_runs : Run first ingest_over
unfolding pop try_push next_index empty_ring
ingest_runs =
    Reach.later
      (Reach.later
        (Reach.later
          (Reach.later
            (Reach.later
              (Reach.later
                (Reach.later
                  (Reach.later source_runs (
                    Step.frame_thread _ (Ingest.FrameStep.pop_frame (wire 1) _ refl refl refl)
                      refl))
                  (Step.frame_thread _
                    (Ingest.FrameStep.good_frame (wire 1) refl (wire_status 1 (omega arith)) refl)
                    refl))
                (Step.frame_thread _ (Ingest.FrameStep.push_record (decoded 1) refl refl refl)
                  refl))
              (Step.frame_thread _ (Ingest.FrameStep.pop_frame (wire 2) _ refl refl refl) refl))
            (Step.frame_thread _
              (Ingest.FrameStep.good_frame (wire 2) refl (wire_status 2 (omega arith)) refl) refl))
          (Step.frame_thread _ (Ingest.FrameStep.push_record (decoded 2) refl refl refl) refl))
        (Step.frame_thread _ (Ingest.FrameStep.pop_end _ refl refl refl) refl))
      (Step.ingest_ends refl refl refl)

abbrev pub fast_over : Pipeline
fast_over = record ingest_over {
  ingest = record ingest_over.ingest {
    ring = record both_wait { read = 2 };
    received = decoded 1 ∷ decoded 2 ∷ [];
  };
  compute = record ingest_over.compute {
    ring = record both_wait { read = 2 };
    fast =
        handle_record source_memcpy
          (handle_record source_memcpy ingest_over.compute.fast (decoded 1)) (decoded 2);
    fast_at = Stages.FastAt.ended;
    handled = decoded 1 ∷ decoded 2 ∷ [];
    control = record ingest_over.compute.control { fast_done = 1 };
  };
}

pub fast_runs : Run first fast_over
unfolding try_pop next_index
fast_runs =
    Reach.later
      (Reach.later
        (Reach.later
          (Reach.later
            (Reach.later
              (Reach.later
                (Reach.later
                  (Reach.later
                    (Reach.later ingest_runs
                      (Step.fast_thread _ (Stages.FastStep.go refl refl refl) refl))
                    (Step.fast_thread _
                      (Stages.FastStep.take_record false (decoded 1) blank_record _ refl refl refl)
                      refl))
                  (Step.fast_thread _
                    (Stages.FastStep.take_record true (decoded 2) blank_record _ refl refl refl)
                    refl))
                (Step.fast_thread _ (Stages.FastStep.find_empty true blank_record refl refl refl)
                  refl))
              (Step.fast_thread _ (Stages.FastStep.stay true refl (inl refl) refl) refl))
            (Step.fast_thread _ (Stages.FastStep.go refl refl refl) refl))
          (Step.fast_thread _ (Stages.FastStep.find_empty false blank_record refl refl refl) refl))
        (Step.fast_thread _ (Stages.FastStep.leave refl (λ e. absurd (omega arith)) refl) refl))
      (Step.fast_thread _ (Stages.FastStep.end refl refl) refl)
