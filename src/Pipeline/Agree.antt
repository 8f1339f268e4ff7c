-- ===== src/Pipeline/Agree.antt =====
-- Each part of a run of src/ingest.cpp, src/compute.cpp and src/publish.cpp together is a run of that
-- part, and the parts agree on what they share.
use ratehub.Prelude.{ℕ, ◌≡◌, ◌⊎◌, refl, sym, ap, ◌∙◌, subst, inl, inr, none, some, List}
use ratehub.Types.{Record}
use ratehub.SpscRing.{SpscRing, try_push}
use ratehub.Layout.{SourceState, WindowState}
use ratehub.Ingest as Ingest
use ratehub.Compute.{Memcpy, take_snapshot}
use ratehub.Compute.Stages as Stages
use ratehub.Publish.Waiting as Waiting
use ratehub.Publish.Place.{out}
use ratehub.Publish.Final.{written}
use ratehub.Pipeline.{Pipeline, Step, Reach, start}
use ratehub.Pipeline.Effects.{
  ingest_flags, ingest_ring, compute_flags, compute_ring, Takes, SourceStep-view, FrameStep-view,
  FastStep-flags, FastStep-ring, WindowStep-view, LoopStep-kept,
}

working_out : (c : Waiting.ComputeAt) → out c ≡ none → c ≡ Waiting.ComputeAt.working
working_out Waiting.ComputeAt.working h = refl
working_out (Waiting.ComputeAt.published x) h = absurd cc
working_out (Waiting.ComputeAt.joined x) h = absurd cc

module _ (m : Memcpy SourceState) (w : Memcpy WindowState) (file : List (List ℕ)) where
  pub record Agree (s : Pipeline) : Type 0 where
    pub ingest : Ingest.Reach 64 10 (Ingest.start 64 10 file) s.ingest
    pub compute : Stages.Reach m w (start m w file).compute s.compute
    pub publish : Waiting.Reach Waiting.start s.publish
    pub flags : ingest_flags s.ingest ≡ compute_flags s.compute
    pub ring : ingest_ring s.ingest ≡ compute_ring s.compute
    pub down : s.publish.shutdown ≡ s.compute.control.shutdown
    pub snapshot : out s.publish.compute ≡ s.compute.snapshot
    pub first_attempt : s.publish.restarts ≡ 0

  -- The ingest process's view of what the 5 ms thread does with the ring.
  taken_by :
      (i : Ingest.State) (q : SpscRing Record × List Record)
      → Takes (ingest_ring i) q
      → Ingest.Reach 64 10 (Ingest.start 64 10 file) i
      → Ingest.Reach 64 10 (Ingest.start 64 10 file) (record i { ring = q.0; received = q.1 })
  taken_by i q (inl same) run =
      subst
        (λ p.
          Ingest.Reach 64 10 (Ingest.start 64 10 file) (record i { ring = p.0; received = p.1 }))
        (sym same) run
  taken_by i q (inr (popped, e)) run =
      Ingest.Reach.later run
        (Ingest.Step.consumer_pops popped (ap (λ p. record i { ring = p.0; received = p.1 }) e))

  -- The compute process's view of what the frame thread does with it.
  pushed_by :
      (c : Stages.Stages) (ring : SpscRing Record)
      → (ring ≡ c.ring) ⊎ ((r : Record) × (ring ≡ (try_push 10 c.ring r).1))
      → Stages.Reach m w (start m w file).compute c
      → Stages.Reach m w (start m w file).compute (record c { ring = ring })
  pushed_by c ring (inl same) run =
      subst (λ r. Stages.Reach m w (start m w file).compute (record c { ring = r })) (sym same) run
  pushed_by c ring (inr (r, e)) run =
      Stages.Reach.later run (Stages.Step.ingest r (ap (λ r'. record c { ring = r' }) e))

  step-Agree : {s t : Pipeline} → Agree s → Step m w s t → Agree t
  step-Agree {s} v (Step.source_thread i step e) =
      let (flags, ring) = SourceStep-view step in
      subst Agree (sym e) (record {
        ingest = Ingest.Reach.later v.ingest (Ingest.Step.by_source step);
        compute = v.compute;
        publish = v.publish;
        flags = flags ∙ v.flags;
        ring = ring ∙ v.ring;
        down = v.down;
        snapshot = v.snapshot;
        first_attempt = v.first_attempt;
      })
  step-Agree {s} v (Step.frame_thread i step e) =
      let (flags, received, ring) = FrameStep-view step in
      let same = ap (λ p. p.0) v.ring in
      subst Agree (sym e) (record {
        ingest = Ingest.Reach.later v.ingest (Ingest.Step.by_frames step);
        compute =
            pushed_by s.compute i.ring
              (subst
                (λ ring'. (i.ring ≡ ring') ⊎ ((r : Record) × (i.ring ≡ (try_push 10 ring' r).1)))
                same ring)
              v.compute;
        publish = v.publish;
        flags = flags ∙ v.flags;
        ring = ap (λ l. (i.ring, l)) (received ∙ ap (λ p. p.1) v.ring);
        down = v.down;
        snapshot = v.snapshot;
        first_attempt = v.first_attempt;
      })
  step-Agree {s} v (Step.ingest_ends at done e) = subst Agree (sym e) (record {
    ingest = Ingest.Reach.later v.ingest (Ingest.Step.both_joined at done refl);
    compute = Stages.Reach.later v.compute (Stages.Step.ingest_ends refl);
    publish = v.publish;
    flags = ap (λ p. (1, p.1)) v.flags;
    ring = v.ring;
    down = v.down;
    snapshot = v.snapshot;
    first_attempt = v.first_attempt;
  })
  step-Agree {s} v (Step.fast_thread c step e) =
      let (flags, snapshot) = FastStep-flags step in
      subst Agree (sym e) (record {
        ingest =
            taken_by s.ingest (compute_ring c)
              (subst (λ p. Takes p (compute_ring c)) (sym v.ring) (FastStep-ring step)) v.ingest;
        compute = Stages.Reach.later v.compute (Stages.Step.fast_step step);
        publish = v.publish;
        flags = v.flags ∙ sym flags;
        ring = refl;
        down = v.down ∙ sym (ap (λ p. p.1) flags);
        snapshot = v.snapshot ∙ sym snapshot;
        first_attempt = v.first_attempt;
      })
  step-Agree {s} v (Step.window_thread c step e) =
      let (flags, ring, snapshot) = WindowStep-view step in
      subst Agree (sym e) (record {
        ingest = v.ingest;
        compute = Stages.Reach.later v.compute (Stages.Step.window_step step);
        publish = v.publish;
        flags = v.flags ∙ sym flags;
        ring = v.ring ∙ sym ring;
        down = v.down ∙ sym (ap (λ p. p.1) flags);
        snapshot = v.snapshot ∙ sym snapshot;
        first_attempt = v.first_attempt;
      })
  step-Agree {s} v (Step.snapshot_thread free done e) =
      let working = working_out s.publish.compute (v.snapshot ∙ free) in
      let snap = take_snapshot w s.compute.control s.compute.windows in
      subst Agree (sym e) (record {
        ingest = v.ingest;
        compute = Stages.Reach.later v.compute (Stages.Step.take free done refl);
        publish =
            Waiting.Reach.later
              (Waiting.Reach.later v.publish
                (Waiting.Step.by_compute (Waiting.ComputeStep.store snap working refl)))
              (Waiting.Step.by_compute (Waiting.ComputeStep.publishes working refl));
        flags = v.flags;
        ring = v.ring;
        down = v.down;
        snapshot = ap some (written s.publish snap v.publish);
        first_attempt = v.first_attempt;
      })
  step-Agree {s} v (Step.compute_ends x ended passed at e) = subst Agree (sym e) (record {
    ingest = v.ingest;
    compute = v.compute;
    publish =
        Waiting.Reach.later v.publish
          (Waiting.Step.by_compute (Waiting.ComputeStep.joins x at refl));
    flags = v.flags;
    ring = v.ring;
    down = v.down;
    snapshot = sym (ap out at) ∙ v.snapshot;
    first_attempt = v.first_attempt;
  })
  step-Agree {s} v (Step.publish_loop p step e) =
      let (compute, down, attempt) = LoopStep-kept step in
      subst Agree (sym e) (record {
        ingest = v.ingest;
        compute = v.compute;
        publish = Waiting.Reach.later v.publish (Waiting.Step.by_loop step);
        flags = v.flags;
        ring = v.ring;
        down = down ∙ v.down;
        snapshot = ap out compute ∙ v.snapshot;
        first_attempt = attempt ∙ v.first_attempt;
      })
  step-Agree {s} v (Step.shut_down e) = subst Agree (sym e) (record {
    ingest = Ingest.Reach.later v.ingest (Ingest.Step.shutdown_set refl);
    compute = Stages.Reach.later v.compute (Stages.Step.shut_down refl);
    publish = Waiting.Reach.later v.publish (Waiting.Step.shut_down refl);
    flags = ap (λ p. (p.0, 1)) v.flags;
    ring = v.ring;
    down = refl;
    snapshot = v.snapshot;
    first_attempt = v.first_attempt;
  })

  -- In every interleaving each part runs as it does beside any others, on the ring and the flags that all
  -- of them see.
  pub reach-Agree : {s : Pipeline} → Reach m w (start m w file) s → Agree s
  reach-Agree Reach.here = record {
    ingest = Ingest.Reach.here;
    compute = Stages.Reach.here;
    publish = Waiting.Reach.here;
    flags = refl;
    ring = refl;
    down = refl;
    snapshot = refl;
    first_attempt = refl;
  }
  reach-Agree (Reach.later before step) = step-Agree (reach-Agree before) step
