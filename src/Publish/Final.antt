-- ===== src/Publish/Final.antt =====
-- What the loop of src/publish.cpp ends with, beside the compute process and the supervisor.
use mathlib.Core.List.{Memᴰ}
use ratehub.Prelude.{Option, ◌∙◌, inr, ◌≡◌, ◌≢◌, refl, ap, true, none, some}
use ratehub.TripleBuffer.{fill, write_slot}
use ratehub.TripleBuffer.Threads as Buffer
use ratehub.TripleBuffer.Safety.{write_slot-fill}
use ratehub.Layout.{Snapshot}
use ratehub.Publish.{have}
use ratehub.Publish.Place.{out, kept_out}
use ratehub.Publish.Sent.{Held}
use ratehub.Publish.Waiting.{blank_snapshot, ComputeAt, PublishAt, Waiting, Reach, start}
use ratehub.Publish.Inv.{start-Inv, reach-Inv}

kept_value : (last : Option Snapshot) → have last ≡ true → (x : Snapshot) × (last ≡ some x)
kept_value none h = absurd cc
kept_value (some x) h = (x, refl)

-- What the compute process has stored is what it publishes next.
pub written :
    (s : Waiting) (x : Snapshot)
    → Reach start s
    → write_slot blank_snapshot (fill s.shared.buffer x) ≡ x
written s x run = write_slot-fill blank_snapshot s.shared x (reach-Inv start s start-Inv run).buffer

pub publish_loop-final :
    (s : Waiting)
    → Reach start s
    → s.at ≡ PublishAt.ended
    → s.shutdown ≡ 0
    → (s.compute_done ≢ 0)
      × (x : Snapshot) × (s.publisher.last ≡ some x)
      × Memᴰ x s.published
      × (s.restarts ≡ 0 → s.compute ≡ ComputeAt.joined x)
publish_loop-final s run at up =
    let v = reach-Inv start s start-Inv run in
    let (done, held) = v.finished at up in
    let (x, kept) = kept_value s.publisher.last held in
    (
      done,
      x,
      kept,
      v.sent.kept x kept,
      λ z.
          let (y, joined) = v.done z done in
          let (u, o, k) = kept_out held (λ q. cc (at, q)) (v.place z) in
          joined ∙ ap ComputeAt.joined (cc (o, k, kept, ap out joined)),
    )

-- The accesses to the buffer are those of a writer and a reader, and the reader is idle at the test.
pub buffer_reached :
    (s : Waiting)
    → Reach start s
    → Buffer.Reach blank_snapshot s.shared
      × (s.at ≡ PublishAt.testing → s.shared.reader ≡ Buffer.Reader.idle)
buffer_reached s run =
    let v = reach-Inv start s start-Inv run in (v.buffer, λ at. v.idle (λ q. cc (at, q)))

-- Once the compute process has ended a snapshot is on its way or kept.
pub held_done :
    (s : Waiting)
    → Reach start s
    → s.compute_done ≢ 0
    → Held s.at s.shared.register s.publisher.last
held_done s run d = (reach-Inv start s start-Inv run).held (inr d)
