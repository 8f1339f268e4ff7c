-- ===== src/Seqlock/Safety.antt =====
-- No torn payload: what an attempt of `load` of include/ratehub/seqlock.hpp returns beside a running
-- publisher.
use ratehub.Prelude.{
  ℕ, zero, suc, ◌+◌, ◌-◌, ◌%◌, ◌^◌, ◌≤◌, ◌<◌, ◌≡◌, ◌∙◌, refl, sym, ap, subst, false, List, [], ◌∷◌,
  ◌++◌, length, get_or, set, take, length-set, length-replicate, length-append, arith,
}
use ratehub.Prelude.Words.{u32}
use ratehub.Seqlock.{Seqlock, is_odd}
use ratehub.Seqlock.Alone.{is_odd_of_mod}
use ratehub.Seqlock.Threads.{
  Writer, Reader, Threads, Step, Reach, start, later, mark_odd, store_word, mark_even, begin_odd,
  begin_even, load_word, end_attempt,
}

take-all : (n : ℕ) (xs : List ℕ) → length xs ≡ n → take n xs ≡ xs
take-all zero [] h = refl
take-all zero (x ∷ xs) h = absurd (omega arith)
take-all (suc n) [] h = absurd (omega arith)
take-all (suc n) (x ∷ xs) h = ap (λ t. x ∷ t) (take-all n xs (omega arith))

take-snoc :
    (xs : List ℕ) (n : ℕ) → n < length xs → take (suc n) xs ≡ take n xs ++ (get_or xs n 0 ∷ [])
take-snoc [] n h = elim h [ ]
take-snoc (x ∷ xs) zero h = refl
take-snoc (x ∷ xs) (suc n) h = ap (λ t. x ∷ t) (take-snoc xs n (omega arith))

-- One more word of `raw` in its place.
take-store :
    (words raw : List ℕ) (i : ℕ)
    → i < length words
    → i < length raw
    → take i words ≡ take i raw
    → take (suc i) (set words i (get_or raw i 0)) ≡ take (suc i) raw
take-store [] raw i h h' e = elim h [ ]
take-store (w ∷ words) [] i h h' e = elim h' [ ]
take-store (w ∷ words) (r ∷ raw) zero h h' e = refl
take-store (w ∷ words) (r ∷ raw) (suc i) h h' e = ground (arith, take-store words raw i)

module _ (n : ℕ) where
  -- The publisher: the sequence is even and the words are the latest payload, or it is odd and the
  -- first `i` words are those of the next one.
  abbrev WriterKnows : Seqlock → ℕ → List ℕ → Writer → Type 0
  WriterKnows l ticks latest Writer.idle = (ticks % 2 ≡ 0) × (l.words ≡ latest)
  WriterKnows l ticks latest (Writer.storing seq raw i) =
      (ticks % 2 ≡ 1)
      × (seq ≡ u32 (ticks - 1))
      × (length raw ≡ n)
      × (i ≤ n)
      × (take i l.words ≡ take i raw)

  -- The loader: while the sequence has not been stored since, it has the first words of the lock.
  abbrev ReaderKnows : Seqlock → ℕ → Reader → Type 0
  ReaderKnows l ticks Reader.idle = Unit {0}
  ReaderKnows l ticks (Reader.loading begin since raw) =
      (since ≤ ticks)
      × (since % 2 ≡ 0)
      × (begin ≡ u32 since)
      × (length raw ≤ n)
      × (ticks ≡ since → raw ≡ take (length raw) l.words)

  pub record Inv (s : Threads) : Type 0 where
    pub storage : length s.lock.words ≡ n
    pub sequence : s.lock.seq ≡ u32 s.ticks
    pub writer : WriterKnows s.lock s.ticks s.latest s.writer
    pub reader : ReaderKnows s.lock s.ticks s.reader

  -- What the loader knows survives each store of the publisher: the sequence has moved on.
  mark-ReaderKnows :
      (l m : Seqlock) (ticks : ℕ) (r : Reader) → ReaderKnows l ticks r → ReaderKnows m (suc ticks) r
  mark-ReaderKnows l m ticks Reader.idle h = tt
  mark-ReaderKnows l m ticks (Reader.loading begin since raw) (before, even, b, short, same) =
      (omega arith, even, b, short, λ e. absurd (omega arith))

  store-ReaderKnows :
      (l m : Seqlock) (ticks : ℕ) (r : Reader)
      → ticks % 2 ≡ 1
      → ReaderKnows l ticks r
      → ReaderKnows m ticks r
  store-ReaderKnows l m ticks Reader.idle odd h = tt
  store-ReaderKnows l m ticks (Reader.loading begin since raw) odd (before, even, b, short, same) =
      (before, even, b, short, λ e. absurd (omega arith))

  -- An even sequence is seen only while no publish runs.
  even_ticks : (l : Seqlock) (ticks : ℕ) → l.seq ≡ u32 ticks → is_odd l.seq ≡ false → ticks % 2 ≡ 0
  even_ticks l ticks e h = ground (arith, is_odd_of_mod l.seq)

  Step-Inv : {s t : Threads} → Step n s t → Inv s → Inv t
  Step-Inv {s} (mark_odd raw long e same) inv =
      let (even, stored) = subst (WriterKnows s.lock s.ticks s.latest) e inv.writer in
      subst Inv (sym same) record {
        storage = inv.storage;
        sequence = omega (arith, inv.sequence);
        writer = (omega arith, omega (arith, inv.sequence), long, omega arith, refl);
        reader =
            mark-ReaderKnows s.lock (record s.lock { seq = u32 (s.lock.seq + 1) }) s.ticks s.reader
              inv.reader;
      }
  Step-Inv {s} (store_word seq raw i e room same) inv =
      let (odd, was, long, i_in, stored) =
        subst (WriterKnows s.lock s.ticks s.latest) e inv.writer in
      subst Inv (sym same) record {
        storage = length-set s.lock.words i (get_or raw i 0) ∙ inv.storage;
        sequence = inv.sequence;
        writer = (
          odd,
          was,
          long,
          room,
          take-store s.lock.words raw i (omega (arith, inv.storage)) (omega arith) stored,
        );
        reader =
            store-ReaderKnows s.lock (record s.lock { words = set s.lock.words i (get_or raw i 0) })
              s.ticks s.reader odd inv.reader;
      }
  Step-Inv {s} (mark_even seq raw i e done same) inv =
      let (odd, was, long, i_in, stored) =
        subst (WriterKnows s.lock s.ticks s.latest) e inv.writer in
      subst Inv (sym same) record {
        storage = inv.storage;
        sequence = omega arith;
        writer = (
          omega arith,
          sym (take-all i s.lock.words (omega (arith, inv.storage)))
              ∙ stored
              ∙ take-all i raw (omega arith),
        );
        reader =
            mark-ReaderKnows s.lock (record s.lock { seq = u32 (seq + 2) }) s.ticks s.reader
              inv.reader;
      }
  Step-Inv (begin_odd e odd same) inv = subst Inv (sym same) inv
  Step-Inv {s} (begin_even e even same) inv = subst Inv (sym same) record {
    storage = inv.storage;
    sequence = inv.sequence;
    writer = inv.writer;
    reader = (
      omega arith,
      even_ticks s.lock s.ticks inv.sequence even,
      inv.sequence,
      omega arith,
      λ e. refl,
    );
  }
  Step-Inv {s} (load_word begin since raw e room same) inv =
      let (before, even, b, short, first) = subst (ReaderKnows s.lock s.ticks) e inv.reader in
      let next = get_or s.lock.words (length raw) 0 in
      let one_more : suc (length raw) ≡ length (raw ++ (next ∷ [])) =
        omega (arith, length-append {0} raw (next ∷ [])) in
      subst Inv (sym same) record {
        storage = inv.storage;
        sequence = inv.sequence;
        writer = inv.writer;
        reader = (
          before,
          even,
          b,
          omega (arith, one_more),
          λ now.
              ap (λ t. t ++ (next ∷ [])) (first now)
              ∙ sym (take-snoc s.lock.words (length raw) (omega (arith, inv.storage)))
              ∙ ap (λ k. take k s.lock.words) one_more,
        );
      }
  Step-Inv (end_attempt begin since raw e full same) inv =
      subst Inv (sym same)
        record { storage = inv.storage; sequence = inv.sequence; writer = inv.writer; reader = tt }

  pub Reach-Inv : {s : Threads} → Reach n s → Inv s
  Reach-Inv start = record {
    storage = length-replicate n 0;
    sequence = omega arith;
    writer = (omega arith, refl);
    reader = tt;
  }
  Reach-Inv (later r st) = Step-Inv st (Reach-Inv r)

  latest_words :
      (l : Seqlock) (ticks : ℕ) (latest : List ℕ) (w : Writer)
      → ticks % 2 ≡ 0
      → WriterKnows l ticks latest w
      → l.words ≡ latest
  latest_words l ticks latest Writer.idle even h = h.1
  latest_words l ticks latest (Writer.storing seq raw i) even h = absurd (omega arith)

  -- An attempt that has loaded all its words and finds `begin` in the sequence again returns the payload
  -- of the last finished publish, whole, whatever the publisher did meanwhile. The condition is the
  -- one that the header states: the counter has not gone all the way round since `begin`, which takes
  -- 2 ^ 31 publishes.
  pub seqlock_untorn :
      (s : Threads) (begin since : ℕ) (raw : List ℕ)
      → Reach n s
      → s.reader ≡ Reader.loading begin since raw
      → length raw ≡ n
      → s.ticks < since + 2 ^ 32
      → s.lock.seq ≡ begin
      → raw ≡ s.latest
  seqlock_untorn s begin since raw r e full recent end =
      let inv = Reach-Inv r in
      let (before, even, b, short, first) = subst (ReaderKnows s.lock s.ticks) e inv.reader in
      let now : s.ticks ≡ since = omega (arith, inv.sequence) in
      first now
      ∙ take-all (length raw) s.lock.words (omega (arith, inv.storage))
      ∙ latest_words s.lock s.ticks s.latest s.writer (omega arith) inv.writer
