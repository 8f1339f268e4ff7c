-- ===== src/Publish/Inv.antt =====
-- What holds in every state that the loop of src/publish.cpp reaches beside the compute process and the
-- supervisor: the first attempt's snapshot has its place, and every attempt's snapshots are known.
use ratehub.Prelude.{◌⊎◌, inl, inr, ℕ, ◌≡◌, ◌≢◌, refl, sym, subst, true, false, none, arith}
use ratehub.TripleBuffer.{is_fresh, consume}
use ratehub.TripleBuffer.Register.{Register, offer, take}
use ratehub.TripleBuffer.Threads as Buffer
use ratehub.TripleBuffer.Safety.{triple_register}
use ratehub.Layout.{Snapshot}
use ratehub.Publish.{have}
use ratehub.Publish.Place.{
  Place, Place-moves, Place-publishes, Place-joins, Place-takes, Place-reads,
}
use ratehub.Publish.Sent.{
  Sent, Held, Held-moves, Sent-moves, Sent-publishes, Sent-takes, Sent-reads,
}
use ratehub.Publish.Waiting.{
  blank_snapshot, ComputeAt, PublishAt, Waiting, ComputeStep, LoopStep, Step, Reach, start,
}

fresh-latest :
    (b : Buffer.Threads Snapshot)
    → Buffer.Reach blank_snapshot b
    → is_fresh b.buffer ≡ true
    → b.register.latest ≢ none
unfolding consume take
fresh-latest b reach set_bit empty =
    let flag = (triple_register blank_snapshot b reach).1 in
    let moved : (consume b.buffer).0 ≡ true = rw set_bit refl in
    let stays : (take b.register).0 ≡ false = rw empty refl in absurd (cc (flag, moved, stays))

unoffered : (r : Register Snapshot) (x : Snapshot) → (offer r x).latest ≢ none
unfolding offer
unoffered r x q = cc

pub record Inv (s : Waiting) : Type 0 where
  pub buffer : Buffer.Reach blank_snapshot s.shared
  pub idle : s.at ≢ PublishAt.swapping → s.shared.reader ≡ Buffer.Reader.idle
  pub seen :
      s.at ≡ PublishAt.swapping
      → (s.shared.reader ≡ Buffer.Reader.fresh_seen) × (s.shared.register.latest ≢ none)
  pub place : s.restarts ≡ 0 → Place s.compute s.at s.shared.register s.publisher.last
  pub done : s.restarts ≡ 0 → s.compute_done ≢ 0 → (x : Snapshot) × (s.compute ≡ ComputeAt.joined x)
  pub sent : Sent s.at s.shared.register s.publisher.last s.published
  pub held :
      (s.compute ≢ ComputeAt.working) ⊎ (s.compute_done ≢ 0)
      → Held s.at s.shared.register s.publisher.last
  pub finished :
      s.at ≡ PublishAt.ended
      → s.shutdown ≡ 0
      → (s.compute_done ≢ 0) × (have s.publisher.last ≡ true)

-- A step of the loop that only moves on.
moves-Inv :
    (s : Waiting) (at : PublishAt) (beats : ℕ)
    → Inv s
    → s.at ≢ PublishAt.reading
    → s.at ≢ PublishAt.swapping
    → at ≢ PublishAt.reading
    → at ≢ PublishAt.swapping
    → (at ≡ PublishAt.ended
        → s.shutdown ≡ 0
        → (s.compute_done ≢ 0) × (have s.publisher.last ≡ true))
    → Inv (record s { at = at; publisher = record s.publisher { beats = beats } })
moves-Inv s at beats v ne ns ne' ns' finished = record {
  buffer = v.buffer;
  idle = λ n. v.idle ns;
  seen = λ e. absurd (ns' e);
  place = λ z. Place-moves at ne ne' (v.place z);
  done = v.done;
  sent = Sent-moves at ne' v.sent;
  held = λ h. Held-moves at s.shared.register s.publisher.last ne (v.held h);
  finished = finished;
}

compute-Inv : (s t : Waiting) → Inv s → ComputeStep s t → Inv t
compute-Inv s t v (ComputeStep.store x at e) = subst Inv (sym e) (record {
  buffer = Buffer.Reach.later v.buffer (Buffer.Step.store x refl);
  idle = v.idle;
  seen = v.seen;
  place = v.place;
  done = v.done;
  sent = v.sent;
  held = v.held;
  finished = v.finished;
})
compute-Inv s t v (ComputeStep.publishes at e) = subst Inv (sym e) (record {
  buffer = Buffer.Reach.later v.buffer (Buffer.Step.publishes refl);
  idle = v.idle;
  seen = λ swaps. ((v.seen swaps).0, λ q. absurd (unoffered s.shared.register _ q));
  place = λ z. Place-publishes _ at (v.place z);
  done = λ z d. absurd (cc (at, (v.done z d).1));
  sent = Sent-publishes _ v.sent;
  held = λ h. inl (unoffered s.shared.register _);
  finished = v.finished;
})
compute-Inv s t v (ComputeStep.joins x at e) = subst Inv (sym e) (record {
  buffer = v.buffer;
  idle = v.idle;
  seen = v.seen;
  place = λ z. Place-joins x at (v.place z);
  done = λ z d. (x, refl);
  sent = v.sent;
  held = λ h. v.held (inl (λ q. cc (at, q)));
  finished = λ end up. ((λ z. absurd (omega arith)), (v.finished end up).1);
})
compute-Inv s t v (ComputeStep.restart e) = subst Inv (sym e) (record {
  buffer = v.buffer;
  idle = v.idle;
  seen = v.seen;
  place = λ z. absurd (omega arith);
  done = λ z. absurd (omega arith);
  sent = v.sent;
  held = λ h. elim h [ inl ne ↦ absurd (ne refl) | inr d ↦ v.held (inr d) ];
  finished = v.finished;
})

loop-Inv : (s t : Waiting) → Inv s → LoopStep s t → Inv t
loop-Inv s t v (LoopStep.stop at down e) = subst Inv (sym e) (
    moves-Inv s PublishAt.ended s.publisher.beats v (λ q. cc (at, q)) (λ q. cc (at, q)) (λ q. cc)
      (λ q. cc) (λ end up. absurd (down up)))
loop-Inv s t v (LoopStep.go at up e) = subst Inv (sym e) (
    moves-Inv s PublishAt.consuming s.publisher.beats v (λ q. cc (at, q)) (λ q. cc (at, q))
      (λ q. cc) (λ q. cc) (λ end. absurd cc))
loop-Inv s t v (LoopStep.consume_none at clear e) = subst Inv (sym e) (
    moves-Inv s PublishAt.beating s.publisher.beats v (λ q. cc (at, q)) (λ q. cc (at, q)) (λ q. cc)
      (λ q. cc) (λ end. absurd cc))
loop-Inv s t v (LoopStep.consume_load at set_bit e) = subst Inv (sym e) (record {
  buffer =
      Buffer.Reach.later v.buffer
        (Buffer.Step.consume_load (v.idle (λ q. cc (at, q))) set_bit refl);
  idle = λ n. absurd (n refl);
  seen = λ q. (refl, fresh-latest s.shared v.buffer set_bit);
  place = λ z. Place-moves PublishAt.swapping (λ q. cc (at, q)) (λ q. cc) (v.place z);
  done = v.done;
  sent = Sent-moves PublishAt.swapping (λ q. cc) v.sent;
  held = λ h.
      Held-moves PublishAt.swapping s.shared.register s.publisher.last (λ q. cc (at, q)) (v.held h);
  finished = λ end. absurd cc;
})
loop-Inv s t v (LoopStep.consume_swap at e) = subst Inv (sym e) (record {
  buffer = Buffer.Reach.later v.buffer (Buffer.Step.consume_swap (v.seen at).0 refl);
  idle = λ n. refl;
  seen = λ q. absurd cc;
  place = λ z.
      Place-takes s.shared.register (v.seen at).1
        (subst (λ a. Place s.compute a s.shared.register s.publisher.last) at (v.place z));
  done = v.done;
  sent = Sent-takes (v.seen at).1 v.sent;
  held = λ h. inr (inl refl);
  finished = λ end. absurd cc;
})
loop-Inv s t v (LoopStep.read at e) = subst Inv (sym e) (record {
  buffer = v.buffer;
  idle = λ n. v.idle (λ q. cc (at, q));
  seen = λ q. absurd cc;
  place = λ z.
      Place-reads _ (triple_register blank_snapshot s.shared v.buffer).0
        (subst (λ a. Place s.compute a s.shared.register s.publisher.last) at (v.place z));
  done = v.done;
  sent = Sent-reads _ (triple_register blank_snapshot s.shared v.buffer).0 at v.sent;
  held = λ h. inr (inr refl);
  finished = λ end. absurd cc;
})
loop-Inv s t v (LoopStep.beat at e) = subst Inv (sym e) (
    moves-Inv s PublishAt.judging _ v (λ q. cc (at, q)) (λ q. cc (at, q)) (λ q. cc) (λ q. cc)
      (λ end. absurd cc))
loop-Inv s t v (LoopStep.finish at done held e) = subst Inv (sym e) (
    moves-Inv s PublishAt.ended s.publisher.beats v (λ q. cc (at, q)) (λ q. cc (at, q)) (λ q. cc)
      (λ q. cc) (λ end up. (done, held)))
loop-Inv s t v (LoopStep.again at more e) = subst Inv (sym e) (
    moves-Inv s PublishAt.testing s.publisher.beats v (λ q. cc (at, q)) (λ q. cc (at, q)) (λ q. cc)
      (λ q. cc) (λ end. absurd cc))

step-Inv : (s t : Waiting) → Inv s → Step s t → Inv t
step-Inv s t v (Step.by_compute e) = compute-Inv s t v e
step-Inv s t v (Step.by_loop e) = loop-Inv s t v e
step-Inv s t v (Step.shut_down e) = subst Inv (sym e) (record {
  buffer = v.buffer;
  idle = v.idle;
  seen = v.seen;
  place = v.place;
  done = v.done;
  sent = v.sent;
  held = v.held;
  finished = λ end up. absurd (omega arith);
})

pub reach-Inv : (s t : Waiting) → Inv s → Reach s t → Inv t
reach-Inv s t v Reach.here = v
reach-Inv s t v (Reach.later {t = u} before e) = step-Inv u t (reach-Inv s u v before) e

pub start-Inv : Inv start
start-Inv = record {
  buffer = Buffer.Reach.start;
  idle = λ n. refl;
  seen = λ q. absurd cc;
  place = λ z. Place.nowhere refl (λ q. cc) refl refl;
  done = λ z d. absurd (d refl);
  sent = record { on_offer = λ x q. absurd cc; in_front = λ q. absurd cc; kept = λ x q. absurd cc };
  held = λ h. elim h [ inl ne ↦ absurd (ne refl) | inr d ↦ absurd (d refl) ];
  finished = λ end. absurd cc;
}
