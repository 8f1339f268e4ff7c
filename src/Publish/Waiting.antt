-- ===== src/Publish/Waiting.antt =====
-- The loop of src/publish.cpp beside the compute process, over the triple buffer of the mapping. A step
-- is one test, one access to the buffer, or one store. An attempt of the compute process stores into its
-- slot as often as it likes, publishes one snapshot, and stores `compute_done` after that. It may fail at
-- any point, also after that store, and the supervisor then starts the next one, which finds the buffer
-- and the flag as they are.
use ratehub.Prelude.{ℕ, suc, List, [], ◌∷◌, ◌+◌, ◌≡◌, ◌≢◌, ◌⊎◌, true, false, none, some, replicate}
use ratehub.Prelude.Words.{u64}
use ratehub.Types.{max_sources}
use ratehub.TripleBuffer.{fill, write_slot, read_slot, publish, is_fresh, swap_read}
use ratehub.TripleBuffer.Register.{offer, take}
use ratehub.TripleBuffer.Threads.{Reader, Threads, initial}
use ratehub.Layout.{Snapshot, blank_window}
use ratehub.Publish.{Publisher, have}

-- The value of the buffer's slots before any snapshot.
abbrev pub blank_snapshot : Snapshot
blank_snapshot = record { generation = 0; rows = replicate max_sources blank_window }

-- Where the attempt of the compute process stands, with the snapshot that it has published.
pub data ComputeAt : Type 0 where
  working : ComputeAt
  published : Snapshot → ComputeAt
  joined : Snapshot → ComputeAt

-- Where the loop stands: before its test, in `consume` before and after the load, before the read of the
-- slot, before the heartbeat, before its second test, and out of the loop.
pub data PublishAt : Type 0 where
  testing consuming swapping reading beating judging ended : PublishAt

pub record Waiting : Type 0 where
  pub shared : Threads Snapshot
  pub compute : ComputeAt
  pub compute_done : ℕ
  pub shutdown : ℕ
  pub at : PublishAt
  pub publisher : Publisher
  pub restarts : ℕ  -- how often the supervisor has started the compute process again
  pub published : List Snapshot  -- what all the attempts have published, the newest first

abbrev pub start : Waiting
start = record {
  shared = initial blank_snapshot;
  compute = ComputeAt.working;
  compute_done = 0;
  shutdown = 0;
  at = PublishAt.testing;
  publisher = record { last = none; beats = 0 };
  restarts = 0;
  published = [];
}

-- A store of the compute process into its slot, and its `publish`.
abbrev pub stored : Waiting → Snapshot → Waiting
stored s x = record s { shared = record s.shared { buffer = fill s.shared.buffer x } }

abbrev pub offered : Waiting → Waiting
offered s = record s {
  compute = ComputeAt.published (write_slot blank_snapshot s.shared.buffer);
  shared = record s.shared {
    buffer = publish s.shared.buffer;
    register = offer s.shared.register (write_slot blank_snapshot s.shared.buffer);
  };
  published = write_slot blank_snapshot s.shared.buffer ∷ s.published;
}

pub data ComputeStep (s t : Waiting) : Type 0 where
  store : (x : Snapshot) → s.compute ≡ ComputeAt.working → t ≡ stored s x → ComputeStep s t
  publishes : s.compute ≡ ComputeAt.working → t ≡ offered s → ComputeStep s t
  joins :
      (x : Snapshot)
      → s.compute ≡ ComputeAt.published x
      → t ≡ record s { compute = ComputeAt.joined x; compute_done = 1 }
      → ComputeStep s t
  restart :
      t ≡ record s { compute = ComputeAt.working; restarts = suc s.restarts } → ComputeStep s t

pub data LoopStep (s t : Waiting) : Type 0 where
  stop :
      s.at ≡ PublishAt.testing
      → s.shutdown ≢ 0
      → t ≡ record s { at = PublishAt.ended }
      → LoopStep s t
  go :
      s.at ≡ PublishAt.testing
      → s.shutdown ≡ 0
      → t ≡ record s { at = PublishAt.consuming }
      → LoopStep s t
  consume_none :
      s.at ≡ PublishAt.consuming
      → is_fresh s.shared.buffer ≡ false
      → t ≡ record s { at = PublishAt.beating }
      → LoopStep s t
  consume_load :
      s.at ≡ PublishAt.consuming
      → is_fresh s.shared.buffer ≡ true
      → t ≡ record s {
        at = PublishAt.swapping;
        shared = record s.shared { reader = Reader.fresh_seen };
      }
      → LoopStep s t
  consume_swap :
      s.at ≡ PublishAt.swapping
      → t ≡ record s {
        at = PublishAt.reading;
        shared = record s.shared {
          buffer = swap_read s.shared.buffer;
          reader = Reader.idle;
          register = (take s.shared.register).1;
        };
      }
      → LoopStep s t
  read :
      s.at ≡ PublishAt.reading
      → t ≡ record s {
        at = PublishAt.beating;
        publisher = record s.publisher { last = some (read_slot blank_snapshot s.shared.buffer) };
      }
      → LoopStep s t
  beat :
      s.at ≡ PublishAt.beating
      → t ≡ record s {
        at = PublishAt.judging;
        publisher = record s.publisher { beats = u64 (s.publisher.beats + 1) };
      }
      → LoopStep s t
  finish :
      s.at ≡ PublishAt.judging
      → s.compute_done ≢ 0
      → have s.publisher.last ≡ true
      → t ≡ record s { at = PublishAt.ended }
      → LoopStep s t
  again :
      s.at ≡ PublishAt.judging
      → (s.compute_done ≡ 0) ⊎ (have s.publisher.last ≡ false)
      → t ≡ record s { at = PublishAt.testing }
      → LoopStep s t

pub data Step (s t : Waiting) : Type 0 where
  by_compute : ComputeStep s t → Step s t
  by_loop : LoopStep s t → Step s t
  shut_down : t ≡ record s { shutdown = 1 } → Step s t

pub data Reach (s : Waiting) : Waiting → Type 0 where
  here : Reach s s
  later : {t u : Waiting} → Reach s t → Step t u → Reach s u
