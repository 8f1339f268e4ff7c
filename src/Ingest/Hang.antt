-- ===== src/Ingest/Hang.antt =====
-- Shutdown of src/ingest.cpp with a full queue.
use ratehub.Prelude.{ℕ, ◌≡◌, sym, subst, List}
use ratehub.BoundedQueue.{waits, push}
use ratehub.Ingest.{Source, Frames, State, Step, SourceStep, FrameStep, Reach}

module _ (capacity k : ℕ) (f : List ℕ) where
  -- The source thread waits in `push` on the full queue, and the frame thread has left.
  pub record IsStuck (s : State) : Type 0 where
    pub source : s.source ≡ Source.pushing f
    pub frames : s.frames ≡ Frames.finished
    pub queue : push capacity s.queue f ≡ waits
    pub done : s.ingest_done ≡ 0

  source-IsStuck : {s t : State} → SourceStep capacity k s t → IsStuck s → IsStuck t
  source-IsStuck (SourceStep.read_frame g rest at e same) v = absurd (cc (at, v.source))
  source-IsStuck (SourceStep.read_end at e same) v = absurd (cc (at, v.source))
  source-IsStuck (SourceStep.source_stops g at h same) v = absurd (cc (at, v.source))
  source-IsStuck (SourceStep.source_goes_on g at h same) v = absurd (cc (at, v.source))
  source-IsStuck (SourceStep.push_frame g q at h same) v = absurd (cc (at, v.source, h, v.queue))
  source-IsStuck (SourceStep.push_refused g q at h same) v = absurd (cc (at, v.source, h, v.queue))
  source-IsStuck (SourceStep.close_queue at same) v = absurd (cc (at, v.source))

  frame-IsStuck : {s t : State} → FrameStep capacity k s t → IsStuck s → IsStuck t
  frame-IsStuck (FrameStep.pop_frame g q at h same) v = absurd (cc (at, v.frames))
  frame-IsStuck (FrameStep.pop_end q at h same) v = absurd (cc (at, v.frames))
  frame-IsStuck (FrameStep.bad_frame g at h same) v = absurd (cc (at, v.frames))
  frame-IsStuck (FrameStep.good_frame g at h same) v = absurd (cc (at, v.frames))
  frame-IsStuck (FrameStep.push_record r at h same) v = absurd (cc (at, v.frames))
  frame-IsStuck (FrameStep.retry_record r at h z same) v = absurd (cc (at, v.frames))
  frame-IsStuck (FrameStep.give_up r at h z same) v = absurd (cc (at, v.frames))

  Step-IsStuck : {s t : State} → Step capacity k s t → IsStuck s → IsStuck t
  Step-IsStuck (Step.by_source step) v = source-IsStuck step v
  Step-IsStuck (Step.by_frames step) v = frame-IsStuck step v
  Step-IsStuck (Step.both_joined at h same) v = absurd (cc (at, v.source))
  Step-IsStuck (Step.consumer_pops h same) v =
      subst IsStuck (sym same)
        (record { source = v.source; frames = v.frames; queue = v.queue; done = v.done })
  Step-IsStuck (Step.shutdown_set same) v =
      subst IsStuck (sym same)
        (record { source = v.source; frames = v.frames; queue = v.queue; done = v.done })

  -- Once the frame thread has left while the source thread waits in `push` on the full queue, nothing
  -- that any thread or process does wakes the source thread, and the process never says that it is done.
  pub ingest_hangs :
      (s t : State)
      → s.source ≡ Source.pushing f
      → s.frames ≡ Frames.finished
      → push capacity s.queue f ≡ waits
      → s.ingest_done ≡ 0
      → Reach capacity k s t
      → (t.source ≡ Source.pushing f) × (t.ingest_done ≡ 0)
  ingest_hangs s t source frames queue done reach = let v = stuck reach in (v.source, v.done)
    where
      stuck : {u : State} → Reach capacity k s u → IsStuck u
      stuck Reach.here = record { source = source; frames = frames; queue = queue; done = done }
      stuck (Reach.later reach' step) = Step-IsStuck step (stuck reach')
