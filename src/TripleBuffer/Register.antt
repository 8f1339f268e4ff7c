-- ===== src/TripleBuffer/Register.antt =====
-- What include/ratehub/triple_buffer.hpp promises: a register with the value that the reader holds and
-- the latest value that it has not taken.
use ratehub.Prelude.{Bool, true, false, Option, none, some}

pub record Register {ℓ} (A : Type ℓ) : Type ℓ where
  pub front : A
  pub latest : Option A

module _ {ℓ} {A : Type ℓ} where
  unfoldable pub offer : Register A → A → Register A
  offer r x = record r { latest = some x }

  take_latest : A → Option A → Bool × Register A
  take_latest front none = (false, record { front = front; latest = none })
  take_latest front (some x) = (true, record { front = x; latest = none })

  unfoldable pub take : Register A → Bool × Register A
  unfolding take_latest
  take r = take_latest r.front r.latest
