-- ===== src/Seqlock.antt =====
-- include/ratehub/seqlock.hpp: latest-value publication of a payload. A payload is the list of the
-- `kWords` words into which `memcpy` puts it (`Raw`).
pub mod Alone
pub mod Threads
pub mod Safety
mod Tests
use Prim.Native.Nat.{bit_and}
use ratehub.Prelude.{
  ℕ, zero, suc, ◌+◌, Bool, true, false, List, [], ◌∷◌, ◌++◌, get_or, set, replicate, ◌==◌,
  if◌then◌else◌,
}
use ratehub.Prelude.Words.{u32}

pub record Seqlock : Type 0 where
  pub seq : ℕ
  pub words : List ℕ

-- A new object whose payload takes `n` words.
abbrev pub new_seqlock : ℕ → Seqlock
new_seqlock n = record { seq = 0; words = replicate n 0 }

-- The loop of `publish`, from word `i` on.
unfoldable pub store_words : List ℕ → ℕ → List ℕ → List ℕ
store_words words i [] = words
store_words words i (v ∷ raw) = store_words (set words i v) (i + 1) raw

-- `publish` with no reader in between: the odd store, the words, the even store.
unfoldable pub publish : Seqlock → List ℕ → Seqlock
unfolding store_words
publish l raw =
    let seq = l.seq in
    let marked = record l { seq = u32 (seq + 1) } in
    let written = record marked { words = store_words l.words 0 raw } in
    record written { seq = u32 (seq + 2) }

unfoldable pub is_odd : ℕ → Bool
is_odd seq = if bit_and seq 1 == 0 then false else true

-- The loop of `load` over the words, with `n` left.
unfoldable pub load_words : ℕ → List ℕ → ℕ → List ℕ
load_words zero words i = []
load_words (suc n) words i = get_or words i 0 ∷ load_words n words (i + 1)

-- The result of `load`, and what it leaves in `out`, with no writer in between: `attempts` are left,
-- and the payload takes `n` words.
unfoldable pub load_from : ℕ → ℕ → Seqlock → List ℕ → Bool × List ℕ
unfolding load_words is_odd
load_from n zero l out = (false, out)
load_from n (suc attempts) l out =
    let begin = l.seq in
    let next = load_from n attempts l out in
    if is_odd begin
    then next
    else (let raw = load_words n l.words 0 in
        let end = l.seq in if begin == end then (true, raw) else next)

unfoldable pub load : ℕ → Seqlock → List ℕ → Bool × List ℕ
unfolding load_from
load n l out = load_from n 64 l out
