-- ===== src/Pipeline/Effects.antt =====
-- What a step of one part of src/ingest.cpp, src/compute.cpp or src/publish.cpp does to what it shares.
use ratehub.Prelude.{
  ℕ, ◌≡◌, ◌⊎◌, refl, sym, ap, ◌∙◌, inl, inr, true, false, Bool-cases, List, [], ◌∷◌, ◌++◌, ◌==◌,
}
use ratehub.Types.{Record, blank_record}
use ratehub.SpscRing.{SpscRing, try_push, try_pop}
use ratehub.Layout.{SourceState, WindowState}
use ratehub.Ingest as Ingest
use ratehub.Compute.{Memcpy}
use ratehub.Compute.Stages as Stages
use ratehub.Publish.Waiting as Waiting

-- `ingest_done` and `shutdown`; and the ring with the records that have left it.
abbrev pub ingest_flags : Ingest.State → ℕ × ℕ
ingest_flags i = (i.ingest_done, i.shutdown)

abbrev pub ingest_ring : Ingest.State → SpscRing Record × List Record
ingest_ring i = (i.ring, i.received)

abbrev pub compute_flags : Stages.Stages → ℕ × ℕ
compute_flags c = (c.control.ingest_done, c.control.shutdown)

abbrev pub compute_ring : Stages.Stages → SpscRing Record × List Record
compute_ring c = (c.ring, c.handled)

-- What a result of `try_pop` left in `out` before does not count.
try_pop_held :
    (ring : SpscRing Record) (held held' : Record)
    → (try_pop 10 blank_record ring held).0 ≡ true
    → try_pop 10 blank_record ring held' ≡ try_pop 10 blank_record ring held
unfolding try_pop
try_pop_held ring held held' h = elim (Bool-cases (ring.read == ring.write)) [
  | inl e ↦
      let empty : (try_pop 10 blank_record ring held).0 ≡ false = rw e refl in
      absurd (cc (h, empty))
  | inr e ↦ rw e refl
]

pub SourceStep-view :
    {i j : Ingest.State}
    → Ingest.SourceStep 64 10 i j
    → (ingest_flags j ≡ ingest_flags i) × (ingest_ring j ≡ ingest_ring i)
SourceStep-view (Ingest.SourceStep.read_frame f rest at h e) = (ap ingest_flags e, ap ingest_ring e)
SourceStep-view (Ingest.SourceStep.read_end at h e) = (ap ingest_flags e, ap ingest_ring e)
SourceStep-view (Ingest.SourceStep.source_stops f at h e) = (ap ingest_flags e, ap ingest_ring e)
SourceStep-view (Ingest.SourceStep.source_goes_on f at h e) = (ap ingest_flags e, ap ingest_ring e)
SourceStep-view (Ingest.SourceStep.push_frame f q at h e) = (ap ingest_flags e, ap ingest_ring e)
SourceStep-view (Ingest.SourceStep.push_refused f q at h e) = (ap ingest_flags e, ap ingest_ring e)
SourceStep-view (Ingest.SourceStep.close_queue at e) = (ap ingest_flags e, ap ingest_ring e)

-- The frame thread leaves the ring as it was, or pushes.
pub FrameStep-view :
    {i j : Ingest.State}
    → Ingest.FrameStep 64 10 i j
    → (ingest_flags j ≡ ingest_flags i)
      × (j.received ≡ i.received)
      × ((j.ring ≡ i.ring) ⊎ ((r : Record) × (j.ring ≡ (try_push 10 i.ring r).1)))
FrameStep-view (Ingest.FrameStep.pop_frame f q at h e) =
    (ap ingest_flags e, ap (λ j. j.received) e, inl (ap (λ j. j.ring) e))
FrameStep-view (Ingest.FrameStep.pop_end q at h e) =
    (ap ingest_flags e, ap (λ j. j.received) e, inl (ap (λ j. j.ring) e))
FrameStep-view (Ingest.FrameStep.bad_frame f at h e) =
    (ap ingest_flags e, ap (λ j. j.received) e, inl (ap (λ j. j.ring) e))
FrameStep-view (Ingest.FrameStep.good_frame f at h e) =
    (ap ingest_flags e, ap (λ j. j.received) e, inl (ap (λ j. j.ring) e))
FrameStep-view (Ingest.FrameStep.push_record r at h e) =
    (ap ingest_flags e, ap (λ j. j.received) e, inr (r, ap (λ j. j.ring) e))
FrameStep-view (Ingest.FrameStep.retry_record r at h up e) =
    (ap ingest_flags e, ap (λ j. j.received) e, inl (ap (λ j. j.ring) e))
FrameStep-view (Ingest.FrameStep.give_up r at h down e) =
    (ap ingest_flags e, ap (λ j. j.received) e, inl (ap (λ j. j.ring) e))

-- A ring with the records that have left it: the same, or after one more.
abbrev pub Takes : SpscRing Record × List Record → SpscRing Record × List Record → Type 0
Takes p q =
    (q ≡ p)
    ⊎ (let (popped, r, ring) = try_pop 10 blank_record p.0 blank_record in
        (popped ≡ true) × (q ≡ (ring, p.1 ++ (r ∷ []))))

module _ {m : Memcpy SourceState} {w : Memcpy WindowState} where
  -- The 5 ms thread stores neither of the two flags, and takes no snapshot.
  pub FastStep-flags :
      {c d : Stages.Stages}
      → Stages.FastStep m w c d
      → (compute_flags d ≡ compute_flags c) × (d.snapshot ≡ c.snapshot)
  FastStep-flags (Stages.FastStep.stop at down e) = (ap compute_flags e, ap (λ d. d.snapshot) e)
  FastStep-flags (Stages.FastStep.go at up e) = (ap compute_flags e, ap (λ d. d.snapshot) e)
  FastStep-flags (Stages.FastStep.take_record drained r held ring at pop e) =
      (ap compute_flags e, ap (λ d. d.snapshot) e)
  FastStep-flags (Stages.FastStep.find_empty drained held at pop e) =
      (ap compute_flags e, ap (λ d. d.snapshot) e)
  FastStep-flags (Stages.FastStep.leave at done e) = (ap compute_flags e, ap (λ d. d.snapshot) e)
  FastStep-flags (Stages.FastStep.stay drained at more e) =
      (ap compute_flags e, ap (λ d. d.snapshot) e)
  FastStep-flags (Stages.FastStep.end at e) = (ap compute_flags e, ap (λ d. d.snapshot) e)

  -- It leaves the ring as it was, or pops from it.
  pub FastStep-ring :
      {c d : Stages.Stages} → Stages.FastStep m w c d → Takes (compute_ring c) (compute_ring d)
  FastStep-ring (Stages.FastStep.stop at down e) = inl (ap compute_ring e)
  FastStep-ring (Stages.FastStep.go at up e) = inl (ap compute_ring e)
  FastStep-ring {c} (Stages.FastStep.take_record drained r held ring at pop e) =
      let same = try_pop_held c.ring held blank_record (ap (λ p. p.0) pop) ∙ pop in
      inr (
        ap (λ p. p.0) same,
        ap compute_ring e ∙ sym (ap (λ p. (p.2, c.handled ++ (p.1 ∷ []))) same),
      )
  FastStep-ring (Stages.FastStep.find_empty drained held at pop e) = inl (ap compute_ring e)
  FastStep-ring (Stages.FastStep.leave at done e) = inl (ap compute_ring e)
  FastStep-ring (Stages.FastStep.stay drained at more e) = inl (ap compute_ring e)
  FastStep-ring (Stages.FastStep.end at e) = inl (ap compute_ring e)

  pub WindowStep-view :
      {c d : Stages.Stages}
      → Stages.WindowStep m w c d
      → (compute_flags d ≡ compute_flags c)
        × (compute_ring d ≡ compute_ring c)
        × (d.snapshot ≡ c.snapshot)
  WindowStep-view (Stages.WindowStep.go at more up e) =
      (ap compute_flags e, ap compute_ring e, ap (λ d. d.snapshot) e)
  WindowStep-view (Stages.WindowStep.go_last at done e) =
      (ap compute_flags e, ap compute_ring e, ap (λ d. d.snapshot) e)
  WindowStep-view (Stages.WindowStep.copy id last at h e) =
      (ap compute_flags e, ap compute_ring e, ap (λ d. d.snapshot) e)
  WindowStep-view (Stages.WindowStep.again at e) =
      (ap compute_flags e, ap compute_ring e, ap (λ d. d.snapshot) e)
  WindowStep-view (Stages.WindowStep.end at e) =
      (ap compute_flags e, ap compute_ring e, ap (λ d. d.snapshot) e)

-- The loop of the publish process stores neither the snapshot nor the flag.
pub LoopStep-kept :
    {p q : Waiting.Waiting}
    → Waiting.LoopStep p q
    → (q.compute ≡ p.compute) × (q.shutdown ≡ p.shutdown) × (q.restarts ≡ p.restarts)
LoopStep-kept (Waiting.LoopStep.stop at down e) =
    (ap (λ q. q.compute) e, ap (λ q. q.shutdown) e, ap (λ q. q.restarts) e)
LoopStep-kept (Waiting.LoopStep.go at up e) =
    (ap (λ q. q.compute) e, ap (λ q. q.shutdown) e, ap (λ q. q.restarts) e)
LoopStep-kept (Waiting.LoopStep.consume_none at h e) =
    (ap (λ q. q.compute) e, ap (λ q. q.shutdown) e, ap (λ q. q.restarts) e)
LoopStep-kept (Waiting.LoopStep.consume_load at h e) =
    (ap (λ q. q.compute) e, ap (λ q. q.shutdown) e, ap (λ q. q.restarts) e)
LoopStep-kept (Waiting.LoopStep.consume_swap at e) =
    (ap (λ q. q.compute) e, ap (λ q. q.shutdown) e, ap (λ q. q.restarts) e)
LoopStep-kept (Waiting.LoopStep.read at e) =
    (ap (λ q. q.compute) e, ap (λ q. q.shutdown) e, ap (λ q. q.restarts) e)
LoopStep-kept (Waiting.LoopStep.beat at e) =
    (ap (λ q. q.compute) e, ap (λ q. q.shutdown) e, ap (λ q. q.restarts) e)
LoopStep-kept (Waiting.LoopStep.finish at done h e) =
    (ap (λ q. q.compute) e, ap (λ q. q.shutdown) e, ap (λ q. q.restarts) e)
LoopStep-kept (Waiting.LoopStep.again at more e) =
    (ap (λ q. q.compute) e, ap (λ q. q.shutdown) e, ap (λ q. q.restarts) e)
