-- ===== src/Seqlock/Alone.antt =====
-- `publish` and `load` of include/ratehub/seqlock.hpp, each run with nothing in between.
use ratehub.Prelude.{
  ℕ, zero, suc, ◌+◌, ◌%◌, ◌≡◌, ◌∙◌, refl, sym, ap, ap₂, length-append, true, false, List, [], ◌∷◌,
  ◌++◌, length, get_or, set, arith, ==_refl, append_assoc,
}
use ratehub.Prelude.Words.{u32}
use ratehub.Prelude.Bits.{bit_and_pow}
use ratehub.Seqlock.{Seqlock, store_words, publish, is_odd, load_words, load_from, load}

pub is_odd-mod : (n : ℕ) → n % 2 ≡ 0 → is_odd n ≡ false
unfolding is_odd
is_odd-mod n h = ground (arith, bit_and_pow 0 n)

pub is_odd_of_mod : (n : ℕ) → n % 2 ≡ 1 → is_odd n ≡ true
unfolding is_odd
is_odd_of_mod n h = ground (arith, bit_and_pow 0 n)

set-append :
    (done old : List ℕ) (w v : ℕ)
    → set (done ++ (w ∷ old)) (length done) v ≡ (done ++ (v ∷ [])) ++ old
set-append [] old w v = refl
set-append (d ∷ done) old w v = ap (λ t. d ∷ t) (set-append done old w v)

get_or-append : (done rest : List ℕ) (w : ℕ) → get_or (done ++ (w ∷ rest)) (length done) 0 ≡ w
get_or-append [] rest w = refl
get_or-append (d ∷ done) rest w = get_or-append done rest w

length-snoc : (done : List ℕ) (v : ℕ) → length done + 1 ≡ length (done ++ (v ∷ []))
length-snoc done v = omega (arith, length-append {0} done (v ∷ []))

-- The words already stored stand before those still to store.
store_words-append :
    (done old raw : List ℕ)
    → length old ≡ length raw
    → store_words (done ++ old) (length done) raw ≡ done ++ raw
unfolding store_words
store_words-append done [] [] h = refl
store_words-append done [] (v ∷ raw) h = absurd (omega arith)
store_words-append done (w ∷ old) [] h = absurd (omega arith)
store_words-append done (w ∷ old) (v ∷ raw) h =
    ap (λ t. store_words t (length done + 1) raw) (set-append done old w v)
    ∙ ap (λ i. store_words ((done ++ (v ∷ [])) ++ old) i raw) (length-snoc done v)
    ∙ store_words-append (done ++ (v ∷ [])) old raw (omega arith)
    ∙ append_assoc done (v ∷ []) raw

load_words-append :
    (done rest : List ℕ) → load_words (length rest) (done ++ rest) (length done) ≡ rest
unfolding load_words
load_words-append done [] = refl
load_words-append done (w ∷ rest) = ap₂ ◌∷◌ (get_or-append done rest w) (
    ap (λ t. load_words (length rest) t (length done + 1)) (sym (append_assoc done (w ∷ []) rest))
    ∙ ap (λ i. load_words (length rest) ((done ++ (w ∷ [])) ++ rest) i) (length-snoc done w)
    ∙ load_words-append (done ++ (w ∷ [])) rest)

-- A publish replaces the whole payload and advances the sequence by two.
pub publish_lem :
    (l : Seqlock) (raw : List ℕ)
    → length l.words ≡ length raw
    → publish l raw ≡ record { seq = u32 (l.seq + 2); words = raw }
unfolding publish
publish_lem l raw h =
    ap (λ (w : List ℕ). record { seq = u32 (l.seq + 2); words = w })
      (store_words-append [] l.words raw h)

load_from-even :
    (n attempts : ℕ) (l : Seqlock) (out : List ℕ)
    → length l.words ≡ n
    → l.seq % 2 ≡ 0
    → load_from n (suc attempts) l out ≡ (true, l.words)
unfolding load_from
load_from-even n attempts l out h e =
    rw (is_odd-mod l.seq e, ==_refl l.seq, ← h, load_words-append [] l.words)

load_from-odd :
    (n attempts : ℕ) (l : Seqlock) (out : List ℕ)
    → l.seq % 2 ≡ 1
    → load_from n attempts l out ≡ (false, out)
unfolding load_from
load_from-odd n zero l out e = refl
load_from-odd n (suc attempts) l out e =
    rw (is_odd_of_mod l.seq e) (load_from-odd n attempts l out e)

-- A load after a publish returns what was published, at any even sequence, the last before the counter
-- wraps included.
pub load-publish :
    (l : Seqlock) (raw out : List ℕ)
    → length l.words ≡ length raw
    → l.seq % 2 ≡ 0
    → load (length raw) (publish l raw) out ≡ (true, raw)
unfolding load
load-publish l raw out h e = rw (publish_lem l raw h) (
    load_from-even (length raw) 63 (record { seq = u32 (l.seq + 2); words = raw }) out refl
      (omega arith))

-- With the writer stuck between its two stores, all attempts fail, and `out` keeps its value.
load_stuck : (n : ℕ) (l : Seqlock) (out : List ℕ) → l.seq % 2 ≡ 1 → load n l out ≡ (false, out)
unfolding load
load_stuck n l out e = load_from-odd n 64 l out e

-- A load at an even sequence returns the words that stand there.
pub load-even :
    (n : ℕ) (l : Seqlock) (out : List ℕ)
    → length l.words ≡ n
    → l.seq % 2 ≡ 0
    → load n l out ≡ (true, l.words)
unfolding load
load-even n l out h e = load_from-even n 63 l out h e
