-- ===== src/Compute/Watch/Laws.antt =====
-- When the watchdog of src/compute.cpp keeps quiet, and how often a crash is made.
use ratehub.Prelude.{
  ℕ, ◌+◌, ◌≤◌, ◌≡◌, refl, inl, inr, Bool, true, false, not, ◌||◌, Bool-cases, some, List, [], ◌∷◌,
  ◌++◌, arith, ◌==◌,
}
use ratehub.Prelude.Text.{codes, bytes_eq, bytes_eq_refl}
use ratehub.Types.{fast_period_ns, window_period_ns, snapshot_period_ns}
use ratehub.Pace.{floor_ns}
use ratehub.Pace.Laws.{stall_limit-allows}
use ratehub.Layout.{ShmControl}
use ratehub.Compute.Watch.{
  stopped, watchdog_round, watchdog, exists, marker_of, create_marker, crash_requested,
}

-- At time `now` each of the three stages has reported within the last 200 ms.
pub record HasBeaten (now : ℕ) (c : ShmControl) : Type 0 where
  pub fast : now ≤ c.heartbeat_fast + floor_ns
  pub window : now ≤ c.heartbeat_window + floor_ns
  pub snapshot : now ≤ c.heartbeat_snapshot + floor_ns

unfoldable pub AllBeaten : List (ℕ × ShmControl) → Type 0
AllBeaten [] = Unit
AllBeaten ((now, c) ∷ rounds) = HasBeaten now c × AllBeaten rounds

watchdog_round-quiet : (now : ℕ) (c : ShmControl) → HasBeaten now c → watchdog_round now c ≡ c
unfolding watchdog_round
watchdog_round-quiet now c h =
    rw
      (
        stall_limit-allows now c.heartbeat_fast fast_period_ns (not (c.fast_done == 0))
            (omega arith) (inr h.fast),
        stall_limit-allows now c.heartbeat_window window_period_ns (not (c.window_done == 0))
            (omega arith) (inr h.window),
        stall_limit-allows now c.heartbeat_snapshot snapshot_period_ns false (omega arith)
            (inr h.snapshot),
      )
      refl

-- The watchdog stores no fault in a run in which, at each of its rounds, every stage has reported within
-- the last 200 ms.
pub watchdog-quiet :
    (rounds : List (ℕ × ShmControl)) → AllBeaten rounds → (watchdog rounds).1 ≡ false
unfolding watchdog AllBeaten
watchdog-quiet [] h = refl
watchdog-quiet ((now, c) ∷ rounds) (beaten, h) =
    elim (Bool-cases (not (c.snapshot_done == 0) || stopped c)) [
      | inl e ↦ rw e refl
      | inr e ↦
          let quiet =
            watchdog_round-quiet now (record c { fault = 0 })
              (record { fast = beaten.fast; window = beaten.window; snapshot = beaten.snapshot }) in
          rw (e, quiet, watchdog-quiet rounds h) refl
    ]

create_marker-twice :
    (writable : Bool) (path : List ℕ) (files : List (List ℕ))
    → (create_marker writable path (create_marker writable path files).1).0 ≡ false
unfolding create_marker exists
create_marker-twice true path files = elim (Bool-cases (exists path files)) [
  | inl e ↦ rw (e, e) refl
  | inr e ↦ rw (e, bytes_eq_refl path) refl
]
create_marker-twice false path files = elim (Bool-cases (exists path files)) [
  | inl e ↦ rw (e, e) refl
  | inr e ↦ rw (e, e) refl
]

-- With the request `once` a restarted process of the same mapping does not crash again.
crash_requested-once :
    (writable : Bool) (name : List ℕ) (files : List (List ℕ))
    → let (crashed, files') = crash_requested (some (codes "once")) writable name files in
      (crash_requested (some (codes "once")) writable name files').0 ≡ false
unfolding crash_requested bytes_eq
crash_requested-once writable name files =
    create_marker-twice writable (codes "/tmp/ratehub-once" ++ marker_of name) files
