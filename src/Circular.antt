-- ===== src/Circular.antt =====
-- A circular array: the slots from one index up to another, going round at the capacity. The ring of
-- include/ratehub/spsc_ring.hpp and the queue of include/ratehub/bounded_queue.hpp both lie in one.
use ratehub.Prelude.{
  ℕ, zero, suc, ◌+◌, ◌-◌, ◌%◌, ◌≤◌, ◌<◌, ◌≡◌, ◌≢◌, refl, ap, ap₂, List, [], ◌∷◌, ◌++◌, length,
  get_or, set, arith, ltb, ◌==◌, if◌then◌else◌, get_or-set_self, get_or-set_ne,
}
use native.Mathlib.Decide.{dec_lt}
use native.Mathlib.Nat.{mod-eq_of_lt, mod-eq-sub-mod}

-- The index after `i`, and the number of slots from `r` up to `w`.
abbrev pub after : ℕ → ℕ → ℕ
after cap i = if i + 1 == cap then 0 else i + 1

abbrev pub used : ℕ → ℕ → ℕ → ℕ
used cap r w = if ltb w r then w + cap - r else w - r

pub mod-after : (cap i : ℕ) → i < cap → (i + 1) % cap ≡ after cap i
mod-after cap i h = elim (dec_lt (i + 1) cap) [
  | yes p ↦ ground (arith, mod-eq_of_lt p)
  | no p ↦ ground (arith, mod-eq-sub-mod {n = i + 1} {m = cap}, mod-eq_of_lt {n = 0} {m = cap})
]

module _ {ℓ} {A : Type ℓ} (blank : A) (slots : List A) (cap : ℕ) where
  abbrev pub window : ℕ → ℕ → List A
  window h zero = []
  window h (suc n) = get_or slots h blank ∷ window (after cap h) n

  pub length-window : (h n : ℕ) → length (window h n) ≡ n
  length-window h zero = refl
  length-window h (suc n) = ap suc (length-window (after cap h) n)

-- Reading takes the first element of the window, and writing appends one.
module _ {ℓ} {A : Type ℓ} (blank : A) (slots : List A) (cap : ℕ) where
  pub window-read :
      (r w : ℕ)
      → r < cap
      → w < cap
      → r ≢ w
      → window blank slots cap r (used cap r w)
        ≡ get_or slots r blank ∷ window blank slots cap (after cap r) (used cap (after cap r) w)
  window-read r w hr hw ne =
      let e : used cap r w ≡ suc (used cap (after cap r) w) = ground arith in rw e

  pub window-write :
      (n r w : ℕ) (x : A)
      → r < cap
      → w < cap
      → cap ≤ length slots
      → used cap r w ≡ n
      → window blank (set slots w x) cap r (suc n) ≡ window blank slots cap r n ++ (x ∷ [])
  window-write zero r w x hr hw long e =
      let same : w ≡ r = ground arith in
      rw same (ap (λ t. t ∷ []) (get_or-set_self slots r x blank (omega arith)))
  window-write (suc n) r w x hr hw long e =
      ap₂ ◌∷◌ (get_or-set_ne slots w r x blank (ground arith))
        (window-write n (after cap r) w x (ground arith) hw long (ground arith))

  -- The free slot that the producer fills is in no window, up to its own index.
  pub window-set_free :
      (n r w : ℕ) (x : A)
      → r < cap
      → w < cap
      → n ≤ used cap r w
      → window blank (set slots w x) cap r n ≡ window blank slots cap r n
  window-set_free zero r w x hr hw h = refl
  window-set_free (suc n) r w x hr hw h =
      ap₂ ◌∷◌ (get_or-set_ne slots w r x blank (ground arith))
        (window-set_free n (after cap r) w x (ground arith) hw (ground arith))

  -- A window one longer ends with the slot at the writer's index.
  pub window-last :
      (n r w : ℕ)
      → r < cap
      → w < cap
      → used cap r w ≡ n
      → window blank slots cap r (suc n) ≡ window blank slots cap r n ++ (get_or slots w blank ∷ [])
  window-last zero r w hr hw e = let same : w ≡ r = ground arith in rw same
  window-last (suc n) r w hr hw e =
      ap (λ t. get_or slots r blank ∷ t)
        (window-last n (after cap r) w (ground arith) hw (ground arith))
