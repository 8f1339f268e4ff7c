-- ===== src/Seqlock/Tests.antt =====
-- Seqlocks of include/ratehub/seqlock.hpp at concrete inputs: a payload of two words.
use ratehub.Prelude.{◌≡◌, refl, [], ◌∷◌, arith}
use ratehub.Seqlock.{is_odd}
use ratehub.Seqlock.Threads.{
  Writer, Reader, Threads, Reach, start, later, mark_odd, store_word, mark_even, begin_even,
  load_word,
}
use ratehub.Seqlock.Safety.{seqlock_untorn}

-- One publish, and an attempt that has loaded both words.
abbrev loaded : Threads
loaded = record {
  lock = record { seq = 2; words = 5 ∷ 6 ∷ [] };
  writer = Writer.idle;
  reader = Reader.loading 2 2 (5 ∷ 6 ∷ []);
  ticks = 2;
  latest = 5 ∷ 6 ∷ [];
}

loaded-Reach : Reach 2 loaded
unfolding is_odd
loaded-Reach =
    later
      (later
        (later
          (later
            (later
              (later (later start (mark_odd (5 ∷ 6 ∷ []) refl refl refl))
                (store_word 0 (5 ∷ 6 ∷ []) 0 refl (omega arith) refl))
              (store_word 0 (5 ∷ 6 ∷ []) 1 refl (omega arith) refl))
            (mark_even 0 (5 ∷ 6 ∷ []) 2 refl refl refl))
          (begin_even refl refl refl))
        (load_word 2 2 [] refl (omega arith) refl))
      (load_word 2 2 (5 ∷ []) refl (omega arith) refl)

seqlock_untorn_example : (5 ∷ 6 ∷ []) ≡ loaded.latest
seqlock_untorn_example =
    seqlock_untorn 2 loaded 2 2 (5 ∷ 6 ∷ []) loaded-Reach refl refl (omega arith) refl
