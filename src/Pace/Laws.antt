-- ===== src/Pace/Laws.antt =====
-- The period budget and the silence test of include/ratehub/pace.hpp.
use ratehub.Prelude.{ℕ, ◌+◌, ◌*◌, ◌^◌, ◌≤◌, ◌<◌, ◌≡◌, ◌⊎◌, ◌↔◌, Bool, true, false, arith}
use ratehub.Prelude.Int.{ℤ, pos, pos_part, neg_part}
use ratehub.Pace.{floor_ns, budget, heartbeat_stalled, stall_limit_ns, finish_cycle}

budget-fits :
    (w p : ℤ)
    → (budget w p).overrun ≡ false
    → (0 < pos_part p)
      × (pos_part w ≤ pos_part p)
      × (neg_part (budget w p).sleep_ns ≡ 0)
      × (pos_part (budget w p).sleep_ns + pos_part w ≡ pos_part p)
unfolding budget
budget-fits w p h = ground arith

-- A cycle overruns exactly if its period is not positive or its work is longer than the period.
budget_overrun_iff :
    (w p : ℤ) → ((budget w p).overrun ≡ true) ↔ ((pos_part p ≡ 0) ⊎ (pos_part p < pos_part w))
unfolding budget
budget_overrun_iff w p = ground arith

-- The cycle of a thread with pacing on, by its work and a positive period. Within the period the
-- counter stays, and work and sleep together last one period; past it the counter goes up, unless it
-- wraps at 2 ^ 32, and the thread does not sleep.
finish_cycle-period :
    (n w p : ℕ)
    → 0 < p
    → n + 1 < 2 ^ 32
    → ((w ≤ p)
        × ((finish_cycle true n (pos w) (pos p)).0 ≡ n)
        × (pos_part (finish_cycle true n (pos w) (pos p)).1 + w ≡ p))
      ⊎ ((p < w)
          × ((finish_cycle true n (pos w) (pos p)).0 ≡ n + 1)
          × ((finish_cycle true n (pos w) (pos p)).1 ≡ pos 0))
unfolding finish_cycle budget
finish_cycle-period n w p hp hn = ground arith

-- A stage counts as silent exactly if it has not ended, has reported before, and its last report is
-- older than the allowed silence.
heartbeat_stalled_iff :
    (now beat silence : ℕ) (done : Bool)
    → (heartbeat_stalled now beat silence done ≡ true)
      ↔ ((done ≡ false) × (0 < beat) × (beat + silence < now))
unfolding heartbeat_stalled
heartbeat_stalled_iff now beat silence done = ground arith

-- The watchdog never faults a stage whose last report is at most four periods old, nor one at most
-- 200 ms old.
pub stall_limit-allows :
    (now beat period : ℕ) (done : Bool)
    → 4 * period < 2 ^ 64
    → (now ≤ beat + 4 * period) ⊎ (now ≤ beat + floor_ns)
    → heartbeat_stalled now beat (stall_limit_ns period) done ≡ false
unfolding heartbeat_stalled stall_limit_ns
stall_limit-allows now beat period done small near = ground arith
