-- ===== src/Ingest.antt =====
-- src/ingest.cpp: the source thread and the frame thread of the ingest process, over the queue between
-- them and the ring of the mapping. Each step is one call on the queue or the ring, or one test. The
-- file is the list of its whole frames: at a shorter rest the read fails. `capacity` is 64, and `2 ^ k`
-- is 1024.
pub mod Records
pub mod Inv
mod SourceSteps
mod FrameSteps
pub mod Order
pub mod Hang
pub mod Sample
mod Tests
use ratehub.Prelude.{
  ℕ, ◌+◌, ◌≡◌, ◌≢◌, Bool, true, false, Option, none, some, List, [], ◌∷◌, ◌++◌, replicate,
}
use ratehub.Prelude.Words.{u64}
use ratehub.Types.{Record, ParseStatus, blank_record, frame_bytes}
use ratehub.Frame.{decode_frame}
use ratehub.BoundedQueue.{BoundedQueue, returns, new_queue, push, pop, close}
use ratehub.SpscRing.{SpscRing, empty_ring, try_push, try_pop}

abbrev pub blank_frame : List ℕ
blank_frame = replicate frame_bytes 0

-- Where the source thread stands, with the frame that it has read.
pub data Source : Type 0 where
  reading : Source
  checking : List ℕ → Source  -- before the test of the flag
  pushing : List ℕ → Source  -- in `queue.push`
  leaving : Source  -- out of the loop, before the close
  ended : Source

-- Where the frame thread stands, with the frame or the record at hand.
pub data Frames : Type 0 where
  popping : Frames
  handling : List ℕ → Frames
  sending : Record → Frames  -- in `push_record`
  finished : Frames

-- `sent` holds the records that the ring has taken, `received` those that the consumer has popped;
-- `dropped` and `skipped` hold what the two threads had at hand when they gave up.
pub record State : Type 0 where
  pub file : List (List ℕ)
  pub source : Source
  pub queue : BoundedQueue (List ℕ)
  pub frames : Frames
  pub ring : SpscRing Record
  pub shutdown : ℕ
  pub heartbeat_ingest : ℕ
  pub ingest_done : ℕ
  pub sent : List Record
  pub received : List Record
  pub dropped : List Record
  pub skipped : List (List ℕ)

module _ (capacity k : ℕ) where
  abbrev pub start : List (List ℕ) → State
  start file = record {
    file = file;
    source = Source.reading;
    queue = new_queue capacity blank_frame;
    frames = Frames.popping;
    ring = empty_ring k blank_record;
    shutdown = 0;
    heartbeat_ingest = 0;
    ingest_done = 0;
    sent = [];
    received = [];
    dropped = [];
    skipped = [];
  }

  pub data SourceStep (s t : State) : Type 0 where
    read_frame :
        (f : List ℕ) (rest : List (List ℕ))
        → s.source ≡ Source.reading
        → s.file ≡ f ∷ rest
        → t ≡ record s { source = Source.checking f; file = rest }
        → SourceStep s t
    read_end :
        s.source ≡ Source.reading
        → s.file ≡ []
        → t ≡ record s { source = Source.leaving }
        → SourceStep s t
    source_stops :
        (f : List ℕ)
        → s.source ≡ Source.checking f
        → s.shutdown ≢ 0
        → t ≡ record s { source = Source.leaving; skipped = f ∷ [] }
        → SourceStep s t
    source_goes_on :
        (f : List ℕ)
        → s.source ≡ Source.checking f
        → s.shutdown ≡ 0
        → t ≡ record s { source = Source.pushing f }
        → SourceStep s t
    push_frame :
        (f : List ℕ) (q : BoundedQueue (List ℕ))
        → s.source ≡ Source.pushing f
        → push capacity s.queue f ≡ returns true q
        → t ≡ record s {
          source = Source.reading;
          queue = q;
          heartbeat_ingest = u64 (s.heartbeat_ingest + 1);
        }
        → SourceStep s t
    push_refused :
        (f : List ℕ) (q : BoundedQueue (List ℕ))
        → s.source ≡ Source.pushing f
        → push capacity s.queue f ≡ returns false q
        → t ≡ record s { source = Source.leaving; queue = q; skipped = f ∷ [] }
        → SourceStep s t
    close_queue :
        s.source ≡ Source.leaving
        → t ≡ record s { source = Source.ended; queue = close s.queue }
        → SourceStep s t

  pub data FrameStep (s t : State) : Type 0 where
    pop_frame :
        (f : List ℕ) (q : BoundedQueue (List ℕ))
        → s.frames ≡ Frames.popping
        → pop capacity blank_frame s.queue ≡ returns (some f) q
        → t ≡ record s { frames = Frames.handling f; queue = q }
        → FrameStep s t
    pop_end :
        (q : BoundedQueue (List ℕ))
        → s.frames ≡ Frames.popping
        → pop capacity blank_frame s.queue ≡ returns none q
        → t ≡ record s { frames = Frames.finished; queue = q }
        → FrameStep s t
    bad_frame :
        (f : List ℕ)
        → s.frames ≡ Frames.handling f
        → (decode_frame (some f) blank_record).0 ≢ ParseStatus.ok
        → t ≡ record s { frames = Frames.popping }
        → FrameStep s t
    good_frame :
        (f : List ℕ)
        → s.frames ≡ Frames.handling f
        → (decode_frame (some f) blank_record).0 ≡ ParseStatus.ok
        → t ≡ record s { frames = Frames.sending (decode_frame (some f) blank_record).1 }
        → FrameStep s t
    push_record :
        (r : Record)
        → s.frames ≡ Frames.sending r
        → (try_push k s.ring r).0 ≡ true
        → t ≡ record s {
          frames = Frames.popping;
          ring = (try_push k s.ring r).1;
          sent = s.sent ++ (r ∷ []);
        }
        → FrameStep s t
    retry_record :
        (r : Record)
        → s.frames ≡ Frames.sending r
        → (try_push k s.ring r).0 ≡ false
        → s.shutdown ≡ 0
        → t ≡ s
        → FrameStep s t
    give_up :
        (r : Record)
        → s.frames ≡ Frames.sending r
        → (try_push k s.ring r).0 ≡ false
        → s.shutdown ≢ 0
        → t ≡ record s { frames = Frames.finished; dropped = r ∷ [] }
        → FrameStep s t

  pub data Step (s t : State) : Type 0 where
    by_source : SourceStep s t → Step s t
    by_frames : FrameStep s t → Step s t
    both_joined :
        s.source ≡ Source.ended
        → s.frames ≡ Frames.finished
        → t ≡ record s { ingest_done = 1 }
        → Step s t
    -- The compute process pops a record, and the supervisor stores the flag.
    consumer_pops :
        (try_pop k blank_record s.ring blank_record).0 ≡ true
        → t ≡ record s {
          ring = (try_pop k blank_record s.ring blank_record).2;
          received = s.received ++ ((try_pop k blank_record s.ring blank_record).1 ∷ []);
        }
        → Step s t
    shutdown_set : t ≡ record s { shutdown = 1 } → Step s t

  pub data Reach (s : State) : State → Type 0 where
    here : Reach s s
    later : {t u : State} → Reach s t → Step t u → Reach s u
