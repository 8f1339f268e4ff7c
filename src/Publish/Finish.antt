-- ===== src/Publish/Finish.antt =====
-- The loop of src/publish.cpp after the end of the compute process.
use ratehub.Prelude.{◌≡◌, ◌≢◌, refl, inl, inr, true, false, Bool-cases, Option, none, some}
use ratehub.TripleBuffer.{is_fresh, consume}
use ratehub.TripleBuffer.Register.{Register, take}
use ratehub.TripleBuffer.Threads as Buffer
use ratehub.TripleBuffer.Safety.{triple_register}
use ratehub.Layout.{Snapshot}
use ratehub.Publish.{have}
use ratehub.Publish.Sent.{Held}
use ratehub.Publish.Waiting.{blank_snapshot, PublishAt, Waiting, LoopStep, Step, Reach, start}
use ratehub.Publish.Final.{held_done, buffer_reached}

-- Steps of the loop alone.
pub data LoopRun : Waiting → Waiting → Type 0 where
  here : {s : Waiting} → LoopRun s s
  sooner : {s t u : Waiting} → LoopStep s t → LoopRun t u → LoopRun s u

abbrev pub Finishes : Waiting → Type 0
Finishes s = (t : Waiting) × LoopRun s t × (t.at ≡ PublishAt.ended)

sooner-Finishes : {s t : Waiting} → LoopStep s t → Finishes t → Finishes s
sooner-Finishes step (u, run, at) = (u, LoopRun.sooner step run, at)

not_fresh-latest :
    (b : Buffer.Threads Snapshot)
    → Buffer.Reach blank_snapshot b
    → is_fresh b.buffer ≡ false
    → (x : Snapshot) → b.register.latest ≢ some x
unfolding consume take
not_fresh-latest b reach clear x on =
    let flag = (triple_register blank_snapshot b reach).1 in
    let stays : (consume b.buffer).0 ≡ false = rw clear refl in
    let moved : (take b.register).0 ≡ true = rw on refl in absurd (cc (flag, moved, stays))

off_none : (o : Option Snapshot) → ((y : Snapshot) → o ≢ some y) → o ≡ none
off_none none off = refl
off_none (some y) off = absurd (off y refl)

-- With nothing on offer after the end of the compute process, the loop has a snapshot.
kept_already :
    {at : PublishAt} (r : Register Snapshot) (last : Option Snapshot)
    → at ≢ PublishAt.reading
    → ((y : Snapshot) → r.latest ≢ some y)
    → Held at r last
    → have last ≡ true
kept_already r last ne off (inl on) = absurd (on (off_none r.latest off))
kept_already r last ne off (inr (inl reads)) = absurd (ne reads)
kept_already r last ne off (inr (inr h)) = h

judging_with :
    (s : Waiting)
    → s.compute_done ≢ 0
    → s.at ≡ PublishAt.judging
    → have s.publisher.last ≡ true
    → Finishes s
judging_with s done at h = sooner-Finishes (LoopStep.finish at done h refl) (_, LoopRun.here, refl)

beating_with :
    (s : Waiting)
    → s.compute_done ≢ 0
    → s.at ≡ PublishAt.beating
    → have s.publisher.last ≡ true
    → Finishes s
beating_with s done at h = sooner-Finishes (LoopStep.beat at refl) (judging_with _ done refl h)

from_reading : (s : Waiting) → s.compute_done ≢ 0 → s.at ≡ PublishAt.reading → Finishes s
from_reading s done at = sooner-Finishes (LoopStep.read at refl) (beating_with _ done refl refl)

from_swapping : (s : Waiting) → s.compute_done ≢ 0 → s.at ≡ PublishAt.swapping → Finishes s
from_swapping s done at = sooner-Finishes (LoopStep.consume_swap at refl) (from_reading _ done refl)

from_consuming :
    (s : Waiting) → Reach start s → s.compute_done ≢ 0 → s.at ≡ PublishAt.consuming → Finishes s
from_consuming s run done at = elim (Bool-cases (is_fresh s.shared.buffer)) [
  | inl e ↦ sooner-Finishes (LoopStep.consume_load at e refl) (from_swapping _ done refl)
  | inr e ↦
      let off = not_fresh-latest s.shared (buffer_reached s run).0 e in
      sooner-Finishes (LoopStep.consume_none at e refl) (
        beating_with _ done refl (
          kept_already s.shared.register s.publisher.last (λ q. cc (at, q)) off
            (held_done s run done)))
]

from_testing :
    (s : Waiting)
    → Reach start s
    → s.compute_done ≢ 0
    → s.shutdown ≡ 0
    → s.at ≡ PublishAt.testing
    → Finishes s
from_testing s run done up at =
    let step = LoopStep.go at up refl in
    sooner-Finishes step (from_consuming _ (Reach.later run (Step.by_loop step)) done refl)

from_judging :
    (s : Waiting)
    → Reach start s
    → s.compute_done ≢ 0
    → s.shutdown ≡ 0
    → s.at ≡ PublishAt.judging
    → Finishes s
from_judging s run done up at = elim (Bool-cases (have s.publisher.last)) [
  | inl h ↦ judging_with s done at h
  | inr h ↦
      let step = LoopStep.again at (inr h) refl in
      sooner-Finishes step (from_testing _ (Reach.later run (Step.by_loop step)) done up refl)
]

from_any :
    (s : Waiting) (at : PublishAt)
    → Reach start s
    → s.compute_done ≢ 0
    → s.shutdown ≡ 0
    → s.at ≡ at
    → Finishes s
from_any s PublishAt.testing run done up at = from_testing s run done up at
from_any s PublishAt.consuming run done up at = from_consuming s run done at
from_any s PublishAt.swapping run done up at = from_swapping s done at
from_any s PublishAt.reading run done up at = from_reading s done at
from_any s PublishAt.beating run done up at =
    let step = LoopStep.beat at refl in
    sooner-Finishes step (from_judging _ (Reach.later run (Step.by_loop step)) done up refl)
from_any s PublishAt.judging run done up at = from_judging s run done up at
from_any s PublishAt.ended run done up at = (s, LoopRun.here, at)

-- Once the compute process has ended, with no shutdown set, the steps of the loop alone bring it to its
-- end, from wherever any interleaving has left it: it is never left waiting for a snapshot.
pub publish_loop-finishes :
    (s : Waiting)
    → Reach start s
    → s.compute_done ≢ 0
    → s.shutdown ≡ 0
    → (t : Waiting) × LoopRun s t × (t.at ≡ PublishAt.ended)
publish_loop-finishes s run done up = from_any s s.at run done up refl
