-- ===== src/Compute/Copies.antt =====
-- Copies to words and back, for runs of src/compute.cpp and of what reads its windows.
use ratehub.Prelude.{
  ℕ, ◌+◌, ◌*◌, ◌/◌, ◌%◌, ◌≡◌, refl, List, [], ◌∷◌, get_or, ◌==◌, if◌then◌else◌, arith,
}
use ratehub.Prelude.Int.{ℤ, pos, negsuc}
use ratehub.Layout.{SourceState, WindowState}
use ratehub.Compute.{Memcpy}

-- One word for an integer of any size.
abbrev to_word : ℤ → ℕ
to_word (pos n) = 2 * n
to_word (negsuc n) = 2 * n + 1

abbrev of_word : ℕ → ℤ
of_word n = if n % 2 == 0 then pos (n / 2) else negsuc (n / 2)

pub of_word-to_word : (z : ℤ) → of_word (to_word z) ≡ z
of_word-to_word (pos n) = ground arith
of_word-to_word (negsuc n) = ground arith

abbrev source_value : List ℕ → SourceState
source_value raw = record {
  pos_x = of_word (get_or raw 0 0);
  pos_y = of_word (get_or raw 1 0);
  vel_x = of_word (get_or raw 2 0);
  vel_y = of_word (get_or raw 3 0);
  time_ns = of_word (get_or raw 4 0);
  sequence = get_or raw 5 0;
  publishes = get_or raw 6 0;
  valid = get_or raw 7 0;
}

abbrev pub source_memcpy : Memcpy SourceState
source_memcpy = record {
  size = 8;
  words = λ a.
      to_word a.pos_x
      ∷ to_word a.pos_y
      ∷ to_word a.vel_x
      ∷ to_word a.vel_y
      ∷ to_word a.time_ns
      ∷ a.sequence
      ∷ a.publishes
      ∷ a.valid
      ∷ [];
  value = source_value;
  length-words = λ a. refl;
  value-words = λ a.
      rw
        (
          of_word-to_word a.pos_x,
          of_word-to_word a.pos_y,
          of_word-to_word a.vel_x,
          of_word-to_word a.vel_y,
          of_word-to_word a.time_ns,
        )
        refl;
}

abbrev window_value : List ℕ → WindowState
window_value raw = record {
  pos_x = of_word (get_or raw 0 0);
  pos_y = of_word (get_or raw 1 0);
  sequence = get_or raw 2 0;
  publishes = get_or raw 3 0;
}

abbrev pub window_memcpy : Memcpy WindowState
window_memcpy = record {
  size = 4;
  words = λ a. to_word a.pos_x ∷ to_word a.pos_y ∷ a.sequence ∷ a.publishes ∷ [];
  value = window_value;
  length-words = λ a. refl;
  value-words = λ a. rw (of_word-to_word a.pos_x, of_word-to_word a.pos_y) refl;
}
