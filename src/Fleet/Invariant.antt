-- ===== src/Fleet/Invariant.antt =====
-- The working set of src/fleet.cpp over any sequence of samples: its columns keep their length and
-- their range, no signed operation overflows, and slow sources stand still.
use ratehub.Prelude.{
  ℕ, replicate, ◌≤◌, zero, suc, ◌*◌, ◌<◌, ◌≡◌, ◌≢◌, inl, inr, true, false, Bool-cases, List, [],
  ◌∷◌, get_or, set, length-set, arith, refl, ap, ◌∙◌,
}
use ratehub.Prelude.Int.{ℤ, pos, negsuc, ◌*ℤ◌, eq_of_parts}
use ratehub.Prelude.Words.{IsInt32, IsInt64}
use ratehub.Types.{Record, InTypes, IntegrateStatus, fast_period_ns}
use ratehub.Fleet.{
  empty_fleet, int64_max, FleetSoA, base, store_row, integrate, next_position, mag, nanoseconds,
  overflows,
}
use ratehub.Fleet.Step.{next_position_parts}
use ratehub.Fleet.Rows.{
  IsFleet, Row, row, stepped, integrate-row_self, integrate-ok, integrate_ok_iff, integrate-refused,
}
use ratehub.Fleet.Overflow.{step-InRange}

zero_in : (n i : ℕ) → IsInt32 (get_or (replicate n (pos 0)) i (pos 0))
zero_in zero i = omega arith
zero_in (suc n) zero = omega arith
zero_in (suc n) (suc i) = zero_in n i

-- A new working set is valid.
pub empty_fleet-IsFleet : IsFleet empty_fleet
empty_fleet-IsFleet = record {
  pos_x = refl;
  pos_y = refl;
  vel_x = refl;
  vel_y = refl;
  sequence = refl;
  time_ns = refl;
  valid = refl;
  in_x = zero_in 64;
  in_y = zero_in 64;
}

AreInt32 : List ℤ → Type 0
AreInt32 xs = (i : ℕ) → IsInt32 (get_or xs i (pos 0))

AreInt32-set : (xs : List ℤ) (i : ℕ) (v : ℤ) → IsInt32 v → AreInt32 xs → AreInt32 (set xs i v)
unfolding AreInt32
AreInt32-set [] i v hv h j = h j
AreInt32-set (x ∷ xs) zero v hv h zero = hv
AreInt32-set (x ∷ xs) zero v hv h (suc j) = h (suc j)
AreInt32-set (x ∷ xs) (suc i) v hv h zero = h zero
AreInt32-set (x ∷ xs) (suc i) v hv h (suc j) = AreInt32-set xs i v hv (λ k. h (suc k)) j

store_row-IsFleet :
    (f : FleetSoA) (s : Record) (x y : ℤ)
    → IsInt32 x
    → IsInt32 y
    → IsFleet f
    → IsFleet (store_row f s x y)
unfolding store_row AreInt32
store_row-IsFleet f s x y hx hy v = record {
  pos_x = omega (arith, v.pos_x, length-set f.pos_x s.source_id x);
  pos_y = omega (arith, v.pos_y, length-set f.pos_y s.source_id y);
  vel_x = omega (arith, v.vel_x, length-set f.vel_x s.source_id s.vel_x);
  vel_y = omega (arith, v.vel_y, length-set f.vel_y s.source_id s.vel_y);
  sequence = omega (arith, v.sequence, length-set f.sequence s.source_id s.sequence);
  time_ns = omega (arith, v.time_ns, length-set f.time_ns s.source_id s.time_ns);
  valid = omega (arith, v.valid, length-set f.valid s.source_id true);
  in_x = AreInt32-set f.pos_x s.source_id x hx v.in_x;
  in_y = AreInt32-set f.pos_y s.source_id y hy v.in_y;
}

data StatusCase (c : IntegrateStatus) : Type 0 where
  accepted : c ≡ IntegrateStatus.ok → StatusCase c
  refused : c ≢ IntegrateStatus.ok → StatusCase c

status_case : (c : IntegrateStatus) → StatusCase c
status_case IntegrateStatus.ok = accepted refl
status_case IntegrateStatus.bad_source = refused (λ e. cc)
status_case IntegrateStatus.bad_dt = refused (λ e. cc)
status_case IntegrateStatus.out_of_range = refused (λ e. cc)

-- Every call keeps the columns' lengths, and every position stays in range of `std::int32_t`.
pub integrate-IsFleet :
    (f : FleetSoA) (s : Record) (dt : ℕ) → IsFleet f → IsFleet (integrate f s (pos dt)).1
integrate-IsFleet f s dt v = elim (status_case (integrate f s (pos dt)).0) [
  | accepted e ↦
      let (known, _, _, same) = integrate-ok f s dt e in
      let (_, _, _, fx, _, fy) = (integrate_ok_iff f s (pos dt)).0 e in
      rw same (store_row-IsFleet f s _ _ fx fy v)
  | refused e ↦ rw (integrate-refused f s (pos dt) e) v
]

base-IsInt32 :
    (f : FleetSoA) (id : ℕ) (column : List ℤ) (sample : ℤ)
    → IsInt32 (get_or column id (pos 0))
    → IsInt32 sample
    → IsInt32 (base f id column sample)
base-IsInt32 f id column sample hc hs = elim (Bool-cases (get_or f.valid id false)) [
  | inl e ↦ rw e hc
  | inr e ↦ rw e hs
]

pub data Axis : Type 0 where
  axis_x axis_y : Axis

-- The position that a step starts from, the velocity, and the coordinate, on one axis.
abbrev pub start : Axis → FleetSoA → Record → ℤ
start Axis.axis_x f s = base f s.source_id f.pos_x s.pos_x
start Axis.axis_y f s = base f s.source_id f.pos_y s.pos_y

abbrev pub vel : Axis → Record → ℤ
vel Axis.axis_x s = s.vel_x
vel Axis.axis_y s = s.vel_y

abbrev pub coordinate : Axis → Row → ℤ
coordinate Axis.axis_x r = r.pos_x
coordinate Axis.axis_y r = r.pos_y

start-IsInt32 :
    (a : Axis) (f : FleetSoA) (s : Record) → IsFleet f → InTypes s → IsInt32 (start a f s)
start-IsInt32 Axis.axis_x f s v t =
    base-IsInt32 f s.source_id f.pos_x s.pos_x (v.in_x s.source_id) t.pos_x
start-IsInt32 Axis.axis_y f s v t =
    base-IsInt32 f s.source_id f.pos_y s.pos_y (v.in_y s.source_id) t.pos_y

vel-IsInt32 : (a : Axis) (s : Record) → InTypes s → IsInt32 (vel a s)
vel-IsInt32 Axis.axis_x s t = t.vel_x
vel-IsInt32 Axis.axis_y s t = t.vel_y

-- With a valid working set and a well-typed sample no signed operation of a step of `integrate`
-- overflows, on either axis: once the guard has let the product through, the divisor of the guard,
-- the product and the sum are values of `std::int64_t`.
pub integrate-no_overflow :
    (a : Axis) (f : FleetSoA) (s : Record) (dt : ℕ)
    → IsFleet f
    → InTypes s
    → overflows (vel a s) (pos dt) ≡ false
    → (mag (vel a s) ≤ int64_max)
      × IsInt64 (vel a s *ℤ pos dt)
      × IsInt64 (next_position (start a f s) (vel a s) (pos dt))
integrate-no_overflow a f s dt v t e =
    step-InRange (start a f s) (vel a s) dt (start-IsInt32 a f s v t) (vel-IsInt32 a s t) e

stands_still : (p vel : ℤ) (dt : ℕ) → mag vel * dt < nanoseconds → next_position p vel (pos dt) ≡ p
stands_still p (pos n) dt h = eq_of_parts _ p (omega (arith, next_position_parts p (pos n) dt))
stands_still p (negsuc n) dt h =
    eq_of_parts _ p (omega (arith, next_position_parts p (negsuc n) dt))

stepped-coordinate :
    (a : Axis) (f : FleetSoA) (s : Record) (dt : ℕ)
    → coordinate a (stepped f s dt) ≡ next_position (start a f s) (vel a s) (pos dt)
stepped-coordinate Axis.axis_x f s dt = refl
stepped-coordinate Axis.axis_y f s dt = refl

-- In a valid working set, at the 5 ms period, a source slower than 200 mm/s on an axis never moves
-- on it: the accepted sample leaves the coordinate where it was, or where the first sample put it.
slow_source_stands :
    (a : Axis) (f : FleetSoA) (s : Record)
    → IsFleet f
    → (integrate f s (pos fast_period_ns)).0 ≡ IntegrateStatus.ok
    → mag (vel a s) < 200
    → coordinate a (row (integrate f s (pos fast_period_ns)).1 s.source_id) ≡ start a f s
slow_source_stands a f s v e slow =
    ap (coordinate a) (integrate-row_self f s fast_period_ns v e)
    ∙ stepped-coordinate a f s fast_period_ns
    ∙ stands_still (start a f s) (vel a s) fast_period_ns (omega arith)
