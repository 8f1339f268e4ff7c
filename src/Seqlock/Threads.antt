-- ===== src/Seqlock/Threads.antt =====
-- A publisher and a loader of include/ratehub/seqlock.hpp, interleaved at each load and store. The
-- accesses are taken in one order, the order of the code in each thread: the fences of the source are
-- there to keep the payload accesses between the two accesses of the sequence.
use ratehub.Prelude.{ℕ, suc, ◌+◌, ◌<◌, ◌≡◌, true, false, List, [], ◌∷◌, ◌++◌, length, get_or, set}
use ratehub.Prelude.Words.{u32}
use ratehub.Seqlock.{Seqlock, new_seqlock, is_odd}

-- Where `publish` stands: the sequence it loaded, its payload, and the next word to store.
pub data Writer : Type 0 where
  idle : Writer
  storing : ℕ → List ℕ → ℕ → Writer

-- Where an attempt of `load` stands: `begin`, and the words loaded so far. `since` is no variable of
-- the code: it is the number of stores of the sequence before the load of `begin`.
pub data Reader : Type 0 where
  idle : Reader
  loading : (begin since : ℕ) → List ℕ → Reader

-- `ticks` counts the stores of the sequence, which do not wrap; `latest` is the payload whose publish
-- ended last.
pub record Threads : Type 0 where
  pub lock : Seqlock
  pub writer : Writer
  pub reader : Reader
  pub ticks : ℕ
  pub latest : List ℕ

module _ (n : ℕ) where
  abbrev pub initial : Threads
  initial = record {
    lock = new_seqlock n;
    writer = Writer.idle;
    reader = Reader.idle;
    ticks = 0;
    latest = (new_seqlock n).words;
  }

  pub data Step (s t : Threads) : Type 0 where
    mark_odd :
        (raw : List ℕ)
        → length raw ≡ n
        → s.writer ≡ Writer.idle
        → t ≡ record s {
          lock = record s.lock { seq = u32 (s.lock.seq + 1) };
          writer = Writer.storing s.lock.seq raw 0;
          ticks = suc s.ticks;
        }
        → Step s t
    store_word :
        (seq : ℕ) (raw : List ℕ) (i : ℕ)
        → s.writer ≡ Writer.storing seq raw i
        → i < n
        → t ≡ record s {
          lock = record s.lock { words = set s.lock.words i (get_or raw i 0) };
          writer = Writer.storing seq raw (suc i);
        }
        → Step s t
    mark_even :
        (seq : ℕ) (raw : List ℕ) (i : ℕ)
        → s.writer ≡ Writer.storing seq raw i
        → i ≡ n
        → t ≡ record s {
          lock = record s.lock { seq = u32 (seq + 2) };
          writer = Writer.idle;
          ticks = suc s.ticks;
          latest = raw;
        }
        → Step s t
    begin_odd : s.reader ≡ Reader.idle → is_odd s.lock.seq ≡ true → t ≡ s → Step s t
    begin_even :
        s.reader ≡ Reader.idle
        → is_odd s.lock.seq ≡ false
        → t ≡ record s { reader = Reader.loading s.lock.seq s.ticks [] }
        → Step s t
    load_word :
        (begin since : ℕ) (raw : List ℕ)
        → s.reader ≡ Reader.loading begin since raw
        → length raw < n
        → t ≡ record s {
          reader = Reader.loading begin since (raw ++ (get_or s.lock.words (length raw) 0 ∷ []));
        }
        → Step s t
    -- The attempt ends, with `raw` as the result where `begin` is the sequence, and else for nothing.
    end_attempt :
        (begin since : ℕ) (raw : List ℕ)
        → s.reader ≡ Reader.loading begin since raw
        → length raw ≡ n
        → t ≡ record s { reader = Reader.idle }
        → Step s t

  pub data Reach : Threads → Type 0 where
    start : Reach initial
    later : {s t : Threads} → Reach s → Step s t → Reach t
