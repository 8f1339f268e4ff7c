-- ===== src/Pipeline/Tests.antt =====
-- A whole run of src/ingest.cpp, src/compute.cpp and src/publish.cpp over the short file of
-- tools/make_replay.cpp.
use ratehub.Prelude.{
  none, ℕ, zero, suc, ◌+◌, ◌<◌, ◌≡◌, refl, subst, true, false, replicate, some, List, [], ◌∷◌, ◌++◌,
  arith,
}
use ratehub.Types.{max_sources, blank_record}
use ratehub.Seqlock.{Seqlock}
use ratehub.Pipeline.Frames.{wire, wire_status, decoded, short_file}
use ratehub.TripleBuffer.{is_fresh, fill, publish, swap_read, read_slot, write_slot}
use ratehub.TripleBuffer.Register.{take}
use ratehub.Layout.{Snapshot}
use ratehub.Compute.Copies.{source_memcpy, window_memcpy}
use ratehub.Compute.{publish_windows_from, take_snapshot, handle_records}
use ratehub.Compute.Stages as Stages
use ratehub.Publish.Waiting as Waiting
use ratehub.SpscRing.Refine.{contents}
use ratehub.Ingest.Records.{good_records}
use ratehub.Compute.Idle.{fresh}
use ratehub.Publish.{Line, write_out}
use ratehub.Publish.Laws.{find_line}
use ratehub.BoundedQueue.{Outcome, push, pop, close}
use ratehub.SpscRing.{try_pop, empty_ring}
use ratehub.Ingest as Ingest
use ratehub.Pipeline.Lost.{record_lost}
use ratehub.Pipeline.{Pipeline, Step, Reach, start}
use ratehub.Pipeline.File.{row_line, pipeline_file}
use ratehub.Pipeline.Run.{first, Run, fast_over, fast_runs}

-- The rest of a last pass over the windows.
pass :
    (left id : ℕ) (s : Pipeline) (windows : List Seqlock)
    → id + left ≡ max_sources
    → Run first (record s {
      compute = record s.compute { window_at = Stages.WindowAt.passing id true; windows = windows };
    })
    → Run first (record s {
      compute = record s.compute {
        window_at = Stages.WindowAt.passing max_sources true;
        windows =
            publish_windows_from source_memcpy window_memcpy left id s.compute.fast.latest windows;
      };
    })
unfolding publish_windows_from
pass zero id s windows h run =
    let same : id ≡ max_sources = omega arith in
    subst
      (λ n. Run first (record s {
        compute = record s.compute {
          window_at = Stages.WindowAt.passing n true;
          windows = windows;
        };
      }))
      same run
pass (suc left) id s windows h run = pass left (suc id) s _ (omega arith) (
    Reach.later run
      (Step.window_thread _ (Stages.WindowStep.copy id true refl (omega arith) refl) refl))

abbrev copied : List Seqlock
copied =
    publish_windows_from source_memcpy window_memcpy max_sources 0 fast_over.compute.fast.latest
      fast_over.compute.windows

abbrev windows_over : Pipeline
windows_over = record fast_over {
  compute = record fast_over.compute {
    window_at = Stages.WindowAt.ended;
    windows = copied;
    control = record fast_over.compute.control { window_done = 1 };
  };
}

windows_run : Run first windows_over
windows_run =
    Reach.later
      (pass max_sources 0 fast_over fast_over.compute.windows refl (
        Reach.later fast_runs (
          Step.window_thread _ (Stages.WindowStep.go_last refl (λ e. absurd (omega arith)) refl)
            refl)))
      (Step.window_thread _ (Stages.WindowStep.end refl refl) refl)

abbrev snap : Snapshot
snap = take_snapshot window_memcpy windows_over.compute.control copied

abbrev compute_over : Pipeline
compute_over = record windows_over {
  compute = record windows_over.compute {
    snapshot = some snap;
    control = record windows_over.compute.control { snapshot_done = 1 };
  };
  publish = record (Waiting.offered (Waiting.stored Waiting.start snap)) {
    compute = Waiting.ComputeAt.joined snap;
    compute_done = 1;
  };
}

compute_runs : Run first compute_over
unfolding fill write_slot
compute_runs =
    Reach.later
      (Reach.later windows_run (Step.snapshot_thread refl (λ e. absurd (omega arith)) refl))
      (Step.compute_ends snap refl refl refl refl)

abbrev file_written : Pipeline
file_written = record compute_over {
  publish = record compute_over.publish {
    shared = record compute_over.publish.shared {
      buffer = swap_read compute_over.publish.shared.buffer;
      register = (take compute_over.publish.shared.register).1;
    };
    at = Waiting.PublishAt.ended;
    publisher = record { last = some snap; beats = 1 };
  };
}

publish_runs : Run first file_written
unfolding is_fresh fill publish swap_read read_slot write_slot
publish_runs =
    Reach.later
      (Reach.later
        (Reach.later
          (Reach.later
            (Reach.later
              (Reach.later compute_runs
                (Step.publish_loop _ (Waiting.LoopStep.go refl refl refl) refl))
              (Step.publish_loop _ (Waiting.LoopStep.consume_load refl refl refl) refl))
            (Step.publish_loop _ (Waiting.LoopStep.consume_swap refl refl) refl))
          (Step.publish_loop _ (Waiting.LoopStep.read refl refl) refl))
        (Step.publish_loop _ (Waiting.LoopStep.beat refl refl) refl))
      (Step.publish_loop _ (Waiting.LoopStep.finish refl (λ e. absurd (omega arith)) refl refl)
        refl)

pipeline_file_example :
    (generation : ℕ) × (lines : List Line) × (write_out true file_written.publish.publisher.last
      ≡ (0, some (generation, lines)))
    × (good_records short_file
        ≡ (decoded 1 ∷ decoded 2 ∷ []) ++ contents 10 blank_record file_written.compute.ring)
    × ((i : ℕ)
        → i < max_sources
        → find_line i lines
          ≡ row_line i
              (handle_records source_memcpy (fresh source_memcpy) (decoded 1 ∷ decoded 2 ∷ [])))
pipeline_file_example =
    pipeline_file source_memcpy window_memcpy short_file file_written refl refl publish_runs refl
      refl

-- A file of one frame, whose record is at hand when the 5 ms thread finds the ring empty.
abbrev alone : Pipeline
alone = start source_memcpy window_memcpy (wire 1 ∷ [])

abbrev late : Pipeline
late = record alone {
  ingest = record alone.ingest {
    file = [];
    source = Ingest.Source.ended;
    queue = record alone.ingest.queue {
      slots = wire 1 ∷ replicate 63 Ingest.blank_frame;
      head = 1;
      closed = true;
    };
    frames = Ingest.Frames.sending (decoded 1);
    heartbeat_ingest = 1;
  };
  compute = record alone.compute { fast_at = Stages.FastAt.draining false };
}

late_run : Run alone late
unfolding push pop close
late_run =
    Reach.later
      (Reach.later
        (Reach.later
          (Reach.later
            (Reach.later
              (Reach.later
                (Reach.later
                  (Reach.later Reach.here (
                    Step.source_thread _ (Ingest.SourceStep.read_frame (wire 1) _ refl refl refl)
                      refl))
                  (Step.source_thread _ (Ingest.SourceStep.source_goes_on (wire 1) refl refl refl)
                    refl))
                (Step.source_thread _ (Ingest.SourceStep.push_frame (wire 1) _ refl refl refl)
                  refl))
              (Step.source_thread _ (Ingest.SourceStep.read_end refl refl refl) refl))
            (Step.source_thread _ (Ingest.SourceStep.close_queue refl refl) refl))
          (Step.frame_thread _ (Ingest.FrameStep.pop_frame (wire 1) _ refl refl refl) refl))
        (Step.frame_thread _
          (Ingest.FrameStep.good_frame (wire 1) refl (wire_status 1 (omega arith)) refl) refl))
      (Step.fast_thread _ (Stages.FastStep.go refl refl refl) refl)

nothing_waits : (try_pop 10 blank_record late.compute.ring blank_record).0 ≡ false
unfolding try_pop empty_ring
nothing_waits = refl

nothing_queued :
    pop 64 Ingest.blank_frame late.ingest.queue ≡ Outcome.returns none late.ingest.queue
unfolding pop
nothing_queued = refl

record_lost_example :
    (t : Pipeline) × Run late t
    × (t.compute.fast_at ≡ Stages.FastAt.ended)
    × (t.compute.handled ≡ [])
    × (contents 10 blank_record t.compute.ring ≡ decoded 1 ∷ [])
    × (t.ingest.dropped ≡ [])
    × (t.ingest.ingest_done ≡ 1)
    × (t.compute.control ≡ record late.compute.control { ingest_done = 1; fast_done = 1 })
record_lost_example =
    record_lost source_memcpy window_memcpy (wire 1 ∷ []) late (decoded 1) blank_record
      late.ingest.queue late_run refl nothing_waits refl refl nothing_queued
