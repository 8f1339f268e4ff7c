-- ===== src/Bench/Pound.antt =====
-- The two threads of `pound` of src/bench.cpp, in every interleaving.
use ratehub.Prelude.{ℕ, ◌+◌, ◌^◌, ◌<◌, ◌≡◌, refl, sym, subst, ◌∙◌, ap₂, arith}
use ratehub.Prelude.Words.{u64}
use ratehub.Bench.{Counters, pound}

abbrev pub rounds : ℕ
rounds = 200000

-- The counters, and the rounds that each thread has done.
pub record Pounding : Type 0 where
  pub counters : Counters
  pub done_a : ℕ
  pub done_b : ℕ

pub data Step (s t : Pounding) : Type 0 where
  a_adds :
      s.done_a < rounds
      → t ≡ record s {
        counters = record s.counters { left = u64 (s.counters.left + 1) };
        done_a = s.done_a + 1;
      }
      → Step s t
  b_adds :
      s.done_b < rounds
      → t ≡ record s {
        counters = record s.counters { right = u64 (s.counters.right + 1) };
        done_b = s.done_b + 1;
      }
      → Step s t

pub data Reach (s : Pounding) : Pounding → Type 0 where
  here : Reach s s
  later : {t u : Pounding} → Reach s t → Step t u → Reach s u

abbrev pub begun : Counters → Pounding
begun c = record { counters = c; done_a = 0; done_b = 0 }

module _ (c : Counters) where
  record Inv (s : Pounding) : Type 0 where
    pub left : s.counters.left ≡ u64 (c.left + s.done_a)
    pub right : s.counters.right ≡ u64 (c.right + s.done_b)

  step-Inv : {s t : Pounding} → Inv s → Step s t → Inv t
  step-Inv {s} v (Step.a_adds more e) =
      subst Inv (sym e) (record { left = omega (arith, v.left); right = v.right })
  step-Inv {s} v (Step.b_adds more e) =
      subst Inv (sym e) (record { left = v.left; right = omega (arith, v.right) })

  reach-Inv : {s : Pounding} → c.left < 2 ^ 64 → c.right < 2 ^ 64 → Reach (begun c) s → Inv s
  reach-Inv hl hr Reach.here = record { left = omega arith; right = omega arith }
  reach-Inv hl hr (Reach.later before step) = step-Inv (reach-Inv hl hr before) step

  -- However the additions of the two threads interleave, once both have done their rounds no addition is
  -- lost: each counter has grown by 200000, modulo `2 ^ 64`.
  pub pound-interleaved :
      (s : Pounding)
      → c.left < 2 ^ 64
      → c.right < 2 ^ 64
      → Reach (begun c) s
      → s.done_a ≡ rounds
      → s.done_b ≡ rounds
      → s.counters ≡ pound c
  unfolding pound
  pound-interleaved s hl hr run a b =
      let v = reach-Inv hl hr run in
      ap₂ (λ l r. record { left = l; right = r }) (v.left ∙ rw a refl) (v.right ∙ rw b refl)
