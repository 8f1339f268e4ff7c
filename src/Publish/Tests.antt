-- ===== src/Publish/Tests.antt =====
-- Schedules and files of src/publish.cpp at concrete inputs.
use ratehub.Prelude.{◌≡◌, refl, true, none, some, [], ◌∷◌, arith}
use ratehub.Prelude.Int.{pos, negsuc}
use ratehub.Layout.{Snapshot, blank_window}
use ratehub.TripleBuffer.{fill, publish, write_slot, swap_read}
use ratehub.Publish.Waiting.{ComputeAt, PublishAt, Waiting, ComputeStep, Step, Reach, start}
use ratehub.Publish.Finish.{LoopRun, publish_loop-finishes}
use ratehub.Publish.Stale.{next_run, snapshot_missed}
use ratehub.TripleBuffer.Register.{offer}
use ratehub.Publish.{write_out, Round, Publisher, publish_loop}

abbrev taken : Snapshot
taken = record {
  generation = 1;
  rows =
      blank_window ∷ record { pos_x = pos 7; pos_y = negsuc 2; sequence = 5; publishes = 3 } ∷ [];
}

abbrev quiet : Round
quiet = record { shutdown = 0; offered = none; compute_done = 0 }

abbrev over : Round
over = record { shutdown = 0; offered = some taken; compute_done = 1 }

abbrev begun : Publisher
begun = record { last = none; beats = 0 }

-- With a shutdown in the first round the snapshot on offer is not taken.
misses : (publish_loop (record over { shutdown = 1 } ∷ []) begun).1.last ≡ none
unfolding publish_loop
misses = refl

abbrev offered : Waiting
offered = record start {
  compute = ComputeAt.published taken;
  shared = record start.shared {
    buffer = publish (fill start.shared.buffer taken);
    register = record start.shared.register { latest = some taken };
  };
  published = taken ∷ [];
}

offers : Reach start offered
unfolding fill publish write_slot offer
offers =
    Reach.later (Reach.later Reach.here (Step.by_compute (ComputeStep.store taken refl refl)))
      (Step.by_compute (ComputeStep.publishes refl refl))

-- The loop takes the snapshot, and sees the end of the compute process.
abbrev all_done : Waiting
all_done = record offered {
  compute = ComputeAt.joined taken;
  compute_done = 1;
  shared = record offered.shared {
    buffer = swap_read offered.shared.buffer;
    register = record { front = taken; latest = none };
  };
  at = PublishAt.ended;
  publisher = record { last = some taken; beats = 1 };
}

abbrev other : Snapshot
other = record taken { generation = 2 }

snapshot_missed_example :
    (t u : Waiting) × Reach offered t
    × (t.compute ≡ ComputeAt.joined taken)
    × (t.at ≡ PublishAt.ended)
    × (write_out true t.publisher.last ≡ (0, none))
    × Reach (next_run t) u
    × (u.at ≡ PublishAt.ended)
    × (u.shutdown ≡ 0)
    × (u.compute ≡ ComputeAt.joined other)
    × (u.publisher.last ≡ some taken)
snapshot_missed_example = snapshot_missed offered other taken offers refl refl refl refl

-- The compute process has ended before the loop's first round.
abbrev early : Waiting
early = record offered { compute = ComputeAt.joined taken; compute_done = 1 }

ends_early : Reach start early
ends_early = Reach.later offers (Step.by_compute (ComputeStep.joins taken refl refl))

publish_loop-finishes_example : (t : Waiting) × LoopRun early t × (t.at ≡ PublishAt.ended)
publish_loop-finishes_example =
    publish_loop-finishes early ends_early (λ z. absurd (omega arith)) refl
