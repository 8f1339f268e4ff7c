-- ===== src/Ingest/Inv.antt =====
-- What holds in every reachable state of the two threads of src/ingest.cpp.
use ratehub.Prelude.{ℕ, ◌^◌, ◌≤◌, ◌<◌, ◌≡◌, ◌≢◌, ◌⊎◌, refl, true, List, [], ◌++◌, arith}
use ratehub.Types.{blank_record}
use ratehub.BoundedQueue.Refine.{IsQueue, view, new_queue-IsQueue}
use ratehub.SpscRing.{empty_ring}
use ratehub.SpscRing.Refine.{IsRing, contents, empty_ring-IsRing}
use ratehub.Ingest.Records.{records_before, good_records, at_hand, in_work}
use ratehub.Ingest.{Source, Frames, State, start, blank_frame}

module _ (capacity k : ℕ) (file : List (List ℕ)) where
  abbrev pub items : State → List (List ℕ)
  items s = (view capacity blank_frame s.queue).items

  pub record Inv (s : State) : Type 0 where
    pub queue : IsQueue capacity s.queue
    pub ring : IsRing k s.ring
    pub order :
        good_records file
        ≡ s.sent
          ++ (s.dropped
              ++ in_work s.frames (
                  records_before
                    (items s)
                    (at_hand s.source (records_before s.skipped (good_records s.file)))))
    pub delivered : s.sent ≡ s.received ++ contents k blank_record s.ring
    pub closed : s.queue.closed ≡ true → s.source ≡ Source.ended
    pub skips : s.source ≢ Source.leaving → s.source ≢ Source.ended → s.skipped ≡ []
    pub drops : s.frames ≢ Frames.finished → s.dropped ≡ []
    pub kept : s.shutdown ≡ 0 → (s.dropped ≡ []) × (s.skipped ≡ [])
    pub read_all :
        s.shutdown ≡ 0 → (s.source ≡ Source.leaving) ⊎ (s.source ≡ Source.ended) → s.file ≡ []
    pub all_popped :
        s.shutdown ≡ 0 → s.frames ≡ Frames.finished → (s.source ≡ Source.ended) × (items s ≡ [])
    pub joined : s.ingest_done ≢ 0 → (s.source ≡ Source.ended) × (s.frames ≡ Frames.finished)

  pub start-Inv : 0 < capacity → 2 ≤ 2 ^ k → k < 32 → Inv (start capacity k file)
  unfolding at_hand in_work records_before good_records empty_ring
  start-Inv hc two word = record {
    queue = new_queue-IsQueue capacity blank_frame hc;
    ring = empty_ring-IsRing k blank_record two word;
    order = refl;
    delivered = refl;
    closed = λ c. cc;
    skips = λ a b. refl;
    drops = λ a. refl;
    kept = λ z. (refl, refl);
    read_all = λ z l. ground arith;
    all_popped = λ z e. cc;
    joined = λ d. absurd (d refl);
  }
