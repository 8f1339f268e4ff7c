-- ===== src/Pipeline/Lost.antt =====
-- A record of src/ingest.cpp that the 5 ms thread of src/compute.cpp never takes.
use ratehub.Prelude.{
  ℕ, ◌≡◌, ◌∙◌, ◌++◌, ap, subst, sym, refl, true, false, none, List, [], ◌∷◌, arith,
}
use ratehub.Types.{Record, blank_record}
use ratehub.BoundedQueue.{BoundedQueue, Outcome, pop}
use ratehub.SpscRing.{SpscRing, try_push, try_pop}
use ratehub.SpscRing.Queue.{enqueue, dequeue}
use ratehub.SpscRing.Refine.{IsRing, contents, try_push-refines, try_pop-refines}
use ratehub.Ingest.Order.{Reach-Inv}
use ratehub.Layout.{SourceState, WindowState}
use ratehub.Compute.{Memcpy}
use ratehub.Compute.Stages as Stages
use ratehub.Ingest as Ingest
use ratehub.Pipeline.{Pipeline, Step, Reach, start}
use ratehub.Pipeline.Agree.{reach-Agree}

dequeue_empty : (xs : List Record) (out : Record) → (dequeue xs out).0 ≡ false → xs ≡ []
unfolding dequeue
dequeue_empty [] out h = refl
dequeue_empty (x ∷ xs) out h = absurd cc

-- A push after a pop has found the ring empty leaves one record in it.
push_after_empty :
    (ring : SpscRing Record) (held r : Record)
    → IsRing 10 ring
    → (try_pop 10 blank_record ring held).0 ≡ false
    → ((try_push 10 ring r).0 ≡ true) × (contents 10 blank_record (try_push 10 ring r).1 ≡ r ∷ [])
unfolding enqueue
push_after_empty ring held r v empty =
    let popped = try_pop-refines 10 blank_record ring held v in
    let none_waits =
      dequeue_empty (contents 10 blank_record ring) held (sym (ap (λ p. p.0) popped) ∙ empty) in
    let one : enqueue 1023 (contents 10 blank_record ring) r ≡ (true, r ∷ []) =
      rw none_waits refl in
    let pushed = try_push-refines 10 blank_record ring r v ∙ one in
    (ap (λ p. p.0) pushed, ap (λ p. p.1) pushed)

module _ (m : Memcpy SourceState) (w : Memcpy WindowState) (file : List (List ℕ)) where
  -- From any state that a run of the three processes reaches, in which the 5 ms thread, in a cycle without
  -- a record so far, finds the ring empty, and the ingest process has one record at hand and nothing after
  -- it: the ingest process may send the record and end before the thread loads `ingest_done`, and then
  -- the thread ends with this record in the ring, none handled meanwhile, none dropped, and no fault or
  -- shutdown stored.
  pub record_lost :
      (s : Pipeline) (r held : Record) (q : BoundedQueue (List ℕ))
      → Reach m w (start m w file) s
      → s.compute.fast_at ≡ Stages.FastAt.draining false
      → (try_pop 10 blank_record s.compute.ring held).0 ≡ false
      → s.ingest.source ≡ Ingest.Source.ended
      → s.ingest.frames ≡ Ingest.Frames.sending r
      → pop 64 Ingest.blank_frame s.ingest.queue ≡ Outcome.returns none q
      → (t : Pipeline) × Reach m w s t
        × (t.compute.fast_at ≡ Stages.FastAt.ended)
        × (t.compute.handled ≡ s.compute.handled)
        × (contents 10 blank_record t.compute.ring ≡ r ∷ [])
        × (t.ingest.dropped ≡ s.ingest.dropped)
        × (t.ingest.ingest_done ≡ 1)
        × (t.compute.control ≡ record s.compute.control { ingest_done = 1; fast_done = 1 })
  record_lost s r held q run at empty over sending last =
      let v = reach-Agree m w file run in
      let inv = Reach-Inv 64 10 file (omega arith) (omega arith) (omega arith) v.ingest in
      let ring = subst (IsRing 10) (ap (λ p. p.0) v.ring) inv.ring in
      let (taken, one) = push_after_empty s.compute.ring held r ring empty in
      (
        record s {
          ingest = record s.ingest {
            queue = q;
            frames = Ingest.Frames.finished;
            ring = (try_push 10 s.compute.ring r).1;
            ingest_done = 1;
            sent = s.ingest.sent ++ (r ∷ []);
            received = s.compute.handled;
          };
          compute = record s.compute {
            fast_at = Stages.FastAt.ended;
            ring = (try_push 10 s.compute.ring r).1;
            control = record s.compute.control { ingest_done = 1; fast_done = 1 };
          };
        },
        Reach.later
            (Reach.later
              (Reach.later
                (Reach.later
                  (Reach.later
                    (Reach.later Reach.here (
                      Step.fast_thread _ (Stages.FastStep.find_empty false held at empty refl)
                        refl))
                    (Step.frame_thread _ (Ingest.FrameStep.push_record r sending taken refl) refl))
                  (Step.frame_thread _ (Ingest.FrameStep.pop_end q refl last refl) refl))
                (Step.ingest_ends over refl refl))
              (Step.fast_thread _ (Stages.FastStep.leave refl (λ e. absurd (omega arith)) refl)
                refl))
            (Step.fast_thread _ (Stages.FastStep.end refl refl) refl),
        refl,
        refl,
        one,
        refl,
        refl,
        refl,
      )
