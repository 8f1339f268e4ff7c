-- ===== src/Fleet/Rows.antt =====
-- `integrate` of src/fleet.cpp as an update of one row of a table.
use ratehub.Prelude.{
  ℕ, ◌*◌, ◌≤◌, ◌<◌, ◌≡◌, ◌≢◌, ◌↔◌, Bool, true, false, length, get_or, arith, get_or-set_self,
  get_or-set_ne, ◌==◌, if◌then◌else◌, ==_iff, Bool-cases, inl, inr, sym, refl,
}
use ratehub.Prelude.Int.{ℤ, pos, negsuc, pos_part, neg_part}
use ratehub.Prelude.Words.{IsInt32}
use ratehub.Types.{Record, IntegrateStatus, max_sources}
use ratehub.Fleet.{FleetSoA, step, base, store_row, integrate, next_position, mag, int64_max}
use ratehub.Fleet.Overflow.{step_iff, step_next}

-- A status other than `ok` leaves the whole working set as it was.
pub integrate-refused :
    (fleet : FleetSoA) (sample : Record) (dt_ns : ℤ)
    → (integrate fleet sample dt_ns).0 ≢ IntegrateStatus.ok
    → (integrate fleet sample dt_ns).1 ≡ fleet
unfolding integrate
integrate-refused fleet sample dt_ns h = ground arith

-- The columns of one source.
pub record Row : Type 0 where
  pub pos_x : ℤ
  pub pos_y : ℤ
  pub vel_x : ℤ
  pub vel_y : ℤ
  pub sequence : ℕ
  pub time_ns : ℤ
  pub valid : Bool

abbrev pub row : FleetSoA → ℕ → Row
row f i = record {
  pos_x = get_or f.pos_x i (pos 0);
  pos_y = get_or f.pos_y i (pos 0);
  vel_x = get_or f.vel_x i (pos 0);
  vel_y = get_or f.vel_y i (pos 0);
  sequence = get_or f.sequence i 0;
  time_ns = get_or f.time_ns i (pos 0);
  valid = get_or f.valid i false;
}

pub record IsFleet (f : FleetSoA) : Type 0 where
  pub pos_x : length f.pos_x ≡ max_sources
  pub pos_y : length f.pos_y ≡ max_sources
  pub vel_x : length f.vel_x ≡ max_sources
  pub vel_y : length f.vel_y ≡ max_sources
  pub sequence : length f.sequence ≡ max_sources
  pub time_ns : length f.time_ns ≡ max_sources
  pub valid : length f.valid ≡ max_sources
  pub in_x : (i : ℕ) → IsInt32 (get_or f.pos_x i (pos 0))
  pub in_y : (i : ℕ) → IsInt32 (get_or f.pos_y i (pos 0))

-- The row that an accepted sample leaves.
abbrev pub stepped : FleetSoA → Record → ℕ → Row
stepped f s dt = record {
  pos_x = next_position (base f s.source_id f.pos_x s.pos_x) s.vel_x (pos dt);
  pos_y = next_position (base f s.source_id f.pos_y s.pos_y) s.vel_y (pos dt);
  vel_x = s.vel_x;
  vel_y = s.vel_y;
  sequence = s.sequence;
  time_ns = s.time_ns;
  valid = true;
}

module _ (f : FleetSoA) (s : Record) (dt : ℕ) where
  abbrev pub base_x : ℤ
  base_x = base f s.source_id f.pos_x s.pos_x

  abbrev pub base_y : ℤ
  base_y = base f s.source_id f.pos_y s.pos_y

  -- `integrate` on an accepted sample.
  pub integrate-ok :
      (integrate f s (pos dt)).0 ≡ IntegrateStatus.ok
      → (s.source_id < max_sources)
        × ((step base_x s.vel_x (pos dt) (pos 0)).0 ≡ true)
        × ((step base_y s.vel_y (pos dt) (pos 0)).0 ≡ true)
        × ((integrate f s (pos dt)).1
            ≡ store_row f s
                (next_position base_x s.vel_x (pos dt))
                (next_position base_y s.vel_y (pos dt)))
  unfolding integrate
  integrate-ok h =
      ground (arith, step_next base_x s.vel_x dt (pos 0), step_next base_y s.vel_y dt (pos 0))

  integrate-accepts :
      s.source_id < max_sources
      → (step base_x s.vel_x (pos dt) (pos 0)).0 ≡ true
      → (step base_y s.vel_y (pos dt) (pos 0)).0 ≡ true
      → (integrate f s (pos dt)).0 ≡ IntegrateStatus.ok
  unfolding integrate
  integrate-accepts h x y = ground arith

  -- `integrate` after a time that is not negative.
  integrate_pos_iff : ((integrate f s (pos dt)).0 ≡ IntegrateStatus.ok) ↔ (
      (s.source_id < max_sources)
      × (mag s.vel_x * dt ≤ int64_max)
      × IsInt32 (next_position base_x s.vel_x (pos dt))
      × (mag s.vel_y * dt ≤ int64_max)
      × IsInt32 (next_position base_y s.vel_y (pos dt)))
  integrate_pos_iff = (forth, back)
    where
      forth :
          (integrate f s (pos dt)).0 ≡ IntegrateStatus.ok
          → (s.source_id < max_sources)
            × (mag s.vel_x * dt ≤ int64_max)
            × IsInt32 (next_position base_x s.vel_x (pos dt))
            × (mag s.vel_y * dt ≤ int64_max)
            × IsInt32 (next_position base_y s.vel_y (pos dt))
      forth h =
          let (known, x, y, _) = integrate-ok h in
          let (px, fx) = (step_iff base_x s.vel_x dt (pos 0)).0 x in
          let (py, fy) = (step_iff base_y s.vel_y dt (pos 0)).0 y in (known, px, fx, py, fy)

      back :
          (s.source_id < max_sources)
            × (mag s.vel_x * dt ≤ int64_max)
            × IsInt32 (next_position base_x s.vel_x (pos dt))
            × (mag s.vel_y * dt ≤ int64_max)
            × IsInt32 (next_position base_y s.vel_y (pos dt))
          → (integrate f s (pos dt)).0 ≡ IntegrateStatus.ok
      back h =
          integrate-accepts h.0 ((step_iff base_x s.vel_x dt (pos 0)).1 (h.1, h.2))
            ((step_iff base_y s.vel_y dt (pos 0)).1 (h.3, h.4))

  row-store_row_self :
      (x y : ℤ)
      → IsFleet f
      → s.source_id < max_sources
      → row (store_row f s x y) s.source_id ≡ record {
        pos_x = x;
        pos_y = y;
        vel_x = s.vel_x;
        vel_y = s.vel_y;
        sequence = s.sequence;
        time_ns = s.time_ns;
        valid = true;
      }
  unfolding store_row
  row-store_row_self x y v h = rw (
    get_or-set_self f.pos_x s.source_id x (pos 0) (omega arith),
    get_or-set_self f.pos_y s.source_id y (pos 0) (omega arith),
    get_or-set_self f.vel_x s.source_id s.vel_x (pos 0) (omega arith),
    get_or-set_self f.vel_y s.source_id s.vel_y (pos 0) (omega arith),
    get_or-set_self f.sequence s.source_id s.sequence 0 (omega arith),
    get_or-set_self f.time_ns s.source_id s.time_ns (pos 0) (omega arith),
    get_or-set_self f.valid s.source_id true false (omega arith),
  )

  row-store_row_ne : (x y : ℤ) (j : ℕ) → s.source_id ≢ j → row (store_row f s x y) j ≡ row f j
  unfolding store_row
  row-store_row_ne x y j h = rw (
    get_or-set_ne f.pos_x s.source_id j x (pos 0) h,
    get_or-set_ne f.pos_y s.source_id j y (pos 0) h,
    get_or-set_ne f.vel_x s.source_id j s.vel_x (pos 0) h,
    get_or-set_ne f.vel_y s.source_id j s.vel_y (pos 0) h,
    get_or-set_ne f.sequence s.source_id j s.sequence 0 h,
    get_or-set_ne f.time_ns s.source_id j s.time_ns (pos 0) h,
    get_or-set_ne f.valid s.source_id j true false h,
  )

  pub integrate-row_self :
      IsFleet f
      → (integrate f s (pos dt)).0 ≡ IntegrateStatus.ok
      → row (integrate f s (pos dt)).1 s.source_id ≡ stepped f s dt
  integrate-row_self v h =
      let (known, _, _, same) = integrate-ok h in rw same (row-store_row_self _ _ v known)

  -- In a valid working set an accepted sample replaces its source's row by the sample's velocity,
  -- sequence and time at the stepped position, and leaves every other row alone.
  pub integrate-row :
      (j : ℕ)
      → IsFleet f
      → (integrate f s (pos dt)).0 ≡ IntegrateStatus.ok
      → row (integrate f s (pos dt)).1 j ≡ (if s.source_id == j then stepped f s dt else row f j)
  integrate-row j v h = elim (Bool-cases (s.source_id == j)) [
    | inl e ↦ rw (e, sym ((==_iff s.source_id j).0 e)) (integrate-row_self v h)
    | inr e ↦
        let (_, _, _, same) = integrate-ok h in
        rw (same, e) (row-store_row_ne _ _ j (λ met. cc (e, (==_iff s.source_id j).1 met)))
  ]

-- A sample is accepted exactly when its source is known, the time is not negative and, on both axes,
-- the product of velocity and time and the new position fit their types.
pub integrate_ok_iff :
    (f : FleetSoA) (s : Record) (dt_ns : ℤ)
    → ((integrate f s dt_ns).0 ≡ IntegrateStatus.ok) ↔ (
        (s.source_id < max_sources)
        × (neg_part dt_ns ≡ 0)
        × (mag s.vel_x * pos_part dt_ns ≤ int64_max)
        × IsInt32 (next_position (base f s.source_id f.pos_x s.pos_x) s.vel_x dt_ns)
        × (mag s.vel_y * pos_part dt_ns ≤ int64_max)
        × IsInt32 (next_position (base f s.source_id f.pos_y s.pos_y) s.vel_y dt_ns))
unfolding integrate
integrate_ok_iff f s (pos dt) =
    let (forth, back) = integrate_pos_iff f s dt in
    (
      λ h. let (known, px, fx, py, fy) = forth h in (known, refl, px, fx, py, fy),
      λ h. back (h.0, h.2, h.3, h.4, h.5),
    )
integrate_ok_iff f s (negsuc n) = (λ h. absurd (ground arith), λ h. absurd (omega (arith, h.1)))
