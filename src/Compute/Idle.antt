-- ===== src/Compute/Idle.antt =====
-- The state of src/compute.cpp before its first record: the tables of the 5 ms thread, and the slots of
-- a new mapping.
use ratehub.Prelude.{ℕ, zero, suc, ◌≡◌, refl, false, List, get_or, replicate, length-replicate}
use ratehub.Types.{max_sources}
use ratehub.Fleet.{empty_fleet}
use ratehub.Fleet.Invariant.{empty_fleet-IsFleet}
use ratehub.Seqlock.{Seqlock, new_seqlock}
use ratehub.Layout.{SourceState, WindowState}
use ratehub.Compute.{Memcpy, Fast}
use ratehub.Compute.Shown.{IsShown}
use ratehub.Compute.Rows.{AreWindows}

pub get_or-replicate : {A : Type 0} (n i : ℕ) (a : A) → get_or (replicate n a) i a ≡ a
get_or-replicate zero i a = refl
get_or-replicate (suc n) zero a = refl
get_or-replicate (suc n) (suc i) a = get_or-replicate n i a

module _ (m : Memcpy SourceState) where
  abbrev pub fresh : Fast
  fresh = record {
    fleet = empty_fleet;
    publishes = replicate max_sources 0;
    latest = replicate max_sources (new_seqlock m.size);
    heartbeat_compute = 0;
  }

  pub fresh-IsShown : IsShown m fresh
  fresh-IsShown = record {
    fleet = empty_fleet-IsFleet;
    publishes = refl;
    latest = refl;
    even = λ i. rw (get_or-replicate max_sources i (new_seqlock m.size)) refl;
    sized =
        λ i. rw (get_or-replicate max_sources i (new_seqlock m.size)) (length-replicate m.size 0);
    shown = λ i h. absurd (cc (h, get_or-replicate max_sources i false));
  }

module _ (w : Memcpy WindowState) where
  abbrev pub idle_windows : List Seqlock
  idle_windows = replicate max_sources (new_seqlock w.size)

  pub idle_windows-AreWindows : AreWindows w idle_windows
  idle_windows-AreWindows = record {
    tables = refl;
    even = λ i. rw (get_or-replicate max_sources i (new_seqlock w.size)) refl;
    sized =
        λ i. rw (get_or-replicate max_sources i (new_seqlock w.size)) (length-replicate w.size 0);
  }
