-- ===== src/Publish/Stale.antt =====
-- A snapshot that the loop of src/publish.cpp misses, and the run of the pipeline after it.
use ratehub.Prelude.{
  ◌+◌, ◌≡◌, refl, sym, ap, ◌∙◌, true, false, none, some, Bool-cases, inl, inr, arith,
}
use ratehub.TripleBuffer.{fill, write_slot, read_slot, is_fresh, swap_read, consume}
use ratehub.TripleBuffer.Register.{take}
use ratehub.TripleBuffer.Threads as Buffer
use ratehub.TripleBuffer.Safety.{triple_register, write_slot-fill}
use ratehub.Prelude.Words.{u64}
use ratehub.Layout.{Snapshot}
use ratehub.Publish.{write_out}
use ratehub.Publish.Waiting.{
  blank_snapshot, ComputeAt, PublishAt, Waiting, ComputeStep, LoopStep, Step, Reach, start, stored,
  offered,
}
use ratehub.Publish.Final.{buffer_reached}

-- The next run on the same mapping, after `reset_control`: the triple buffer is as it was.
unfoldable pub next_run : Waiting → Waiting
next_run s = record start { shared = s.shared }

-- A snapshot on offer is what the next consume takes.
offer_taken :
    (b : Buffer.Threads Snapshot) (y : Snapshot)
    → Buffer.Reach blank_snapshot b
    → b.register.latest ≡ some y
    → (is_fresh b.buffer ≡ true) × (read_slot blank_snapshot (swap_read b.buffer) ≡ y)
unfolding consume take
offer_taken b y reach on =
    let (_, flag, front) = triple_register blank_snapshot b reach in
    let moves : (take b.register).0 ≡ true = rw on refl in
    let value : (take b.register).1.front ≡ y = rw on refl in
    elim (Bool-cases (is_fresh b.buffer)) [
      | inr e ↦
          let stays : (consume b.buffer).0 ≡ false = rw e refl in absurd (cc (flag, moves, stays))
      | inl e ↦
          let swaps : (consume b.buffer).1 ≡ swap_read b.buffer = rw e refl in
          (e, sym (ap (read_slot blank_snapshot) swaps) ∙ front ∙ value)
    ]

-- The loop takes what is on offer, and only then the compute process publishes and ends.
overtaken :
    (s : Waiting) (x y : Snapshot)
    → Buffer.Reach blank_snapshot s.shared
    → s.shared.reader ≡ Buffer.Reader.idle
    → s.shared.register.latest ≡ some y
    → s.at ≡ PublishAt.testing
    → s.shutdown ≡ 0
    → s.compute ≡ ComputeAt.working
    → (t : Waiting) × Reach s t
      × (t.at ≡ PublishAt.ended)
      × (t.shutdown ≡ 0)
      × (t.compute ≡ ComputeAt.joined x)
      × (t.publisher.last ≡ some y)
overtaken s x y reach idle on at up working =
    let (seen, value) = offer_taken s.shared y reach on in
    let swapped : Buffer.Threads Snapshot = record s.shared {
      buffer = swap_read s.shared.buffer;
      reader = Buffer.Reader.idle;
      register = (take s.shared.register).1;
    } in
    let reach' : Buffer.Reach blank_snapshot swapped =
      Buffer.Reach.later (Buffer.Reach.later reach (Buffer.Step.consume_load idle seen refl))
        (Buffer.Step.consume_swap refl refl) in
    let taken : Waiting = record s {
      shared = swapped;
      at = PublishAt.judging;
      publisher = record {
        last = some (read_slot blank_snapshot (swap_read s.shared.buffer));
        beats = u64 (s.publisher.beats + 1);
      };
    } in
    let takes : Reach s taken =
      Reach.later
        (Reach.later
          (Reach.later
            (Reach.later (Reach.later Reach.here (Step.by_loop (LoopStep.go at up refl)))
              (Step.by_loop (LoopStep.consume_load refl seen refl)))
            (Step.by_loop (LoopStep.consume_swap refl refl)))
          (Step.by_loop (LoopStep.read refl refl)))
        (Step.by_loop (LoopStep.beat refl refl)) in
    let ready = offered (stored taken x) in
    (
      record ready {
        compute = ComputeAt.joined (write_slot blank_snapshot (fill swapped.buffer x));
        compute_done = 1;
        at = PublishAt.ended;
      },
      Reach.later
          (Reach.later
            (Reach.later (Reach.later takes (Step.by_compute (ComputeStep.store x working refl)))
              (Step.by_compute (ComputeStep.publishes working refl)))
            (Step.by_compute (ComputeStep.joins _ refl refl)))
          (Step.by_loop (LoopStep.finish refl (λ z. absurd (omega arith)) refl refl)),
      refl,
      up,
      ap ComputeAt.joined (write_slot-fill blank_snapshot swapped x reach'),
      ap some value,
    )

-- From any state that a run reaches with its snapshot on offer, no snapshot kept and the loop before its
-- test: the compute process may end and the supervisor store `shutdown` before that test, and then the
-- loop ends without the snapshot, no file is written, and the process returns 0. In the next run on the
-- same mapping the loop may take that snapshot, and end with it instead of the one that the compute
-- process then publishes, with no shutdown set.
pub snapshot_missed :
    (s : Waiting) (x y : Snapshot)
    → Reach start s
    → s.compute ≡ ComputeAt.published y
    → s.shared.register.latest ≡ some y
    → s.at ≡ PublishAt.testing
    → s.publisher.last ≡ none
    → (t u : Waiting) × Reach s t
      × (t.compute ≡ ComputeAt.joined y)
      × (t.at ≡ PublishAt.ended)
      × (write_out true t.publisher.last ≡ (0, none))
      × Reach (next_run t) u
      × (u.at ≡ PublishAt.ended)
      × (u.shutdown ≡ 0)
      × (u.compute ≡ ComputeAt.joined x)
      × (u.publisher.last ≡ some y)
unfolding write_out next_run
snapshot_missed s x y run published on test no_last =
    let t : Waiting = record s {
      compute = ComputeAt.joined y;
      compute_done = 1;
      shutdown = 1;
      at = PublishAt.ended;
    } in
    let (reach, idle) = buffer_reached s run in
    let (u, runs, ended, up, joined, kept) =
      overtaken (next_run t) x y reach (idle test) on refl refl refl in
    (
      t,
      u,
      Reach.later
          (Reach.later
            (Reach.later Reach.here (Step.by_compute (ComputeStep.joins y published refl)))
            (Step.shut_down refl))
          (Step.by_loop (LoopStep.stop test (λ z. absurd (omega arith)) refl)),
      refl,
      refl,
      rw no_last refl,
      runs,
      ended,
      up,
      joined,
      kept,
    )
