-- ===== src/Compute/Shown.antt =====
-- What the 25 ms thread can load of the working set of src/compute.cpp.
use ratehub.Prelude.{
  ℕ, ◌+◌, ◌%◌, ◌<◌, ◌≡◌, ◌≢◌, refl, sym, subst, ◌⊎◌, ap, ◌∙◌, Bool, true, false, List, [], ◌∷◌,
  length, get_or, set, length-set, get_or-set_self, get_or-set_ne, inl, inr, arith, Bool-cases,
  ◌==◌, ==_iff, if◌then◌else◌,
}
use ratehub.Prelude.Int.{pos}
use ratehub.Prelude.Words.{u32}
use ratehub.Types.{Record, IntegrateStatus, max_sources, fast_period_ns}
use ratehub.Fleet.{FleetSoA, integrate}
use ratehub.Fleet.Rows.{IsFleet, Row, row, stepped, integrate-refused, integrate-row, integrate-ok}
use ratehub.Fleet.Invariant.{integrate-IsFleet}
use ratehub.Seqlock.{Seqlock, publish, load}
use ratehub.Seqlock.Alone.{publish_lem, load-even}
use ratehub.Layout.{SourceState}
use ratehub.Compute.{
  Memcpy, Fast, slot, state_of, is_ok, publish_record, handle_record, handle_records,
}

pub is_ok_iff : (c : IntegrateStatus) → is_ok c ≡ true → c ≡ IntegrateStatus.ok
is_ok_iff IntegrateStatus.ok h = refl
is_ok_iff IntegrateStatus.bad_source h = absurd cc
is_ok_iff IntegrateStatus.bad_dt h = absurd cc
is_ok_iff IntegrateStatus.out_of_range h = absurd cc

pub not_ok : (c : IntegrateStatus) → is_ok c ≡ false → c ≢ IntegrateStatus.ok
not_ok c h e = cc (h, ap is_ok e)

-- The published state of a row.
state_of_row : Row → ℕ → SourceState
state_of_row r count = record {
  pos_x = r.pos_x;
  pos_y = r.pos_y;
  vel_x = r.vel_x;
  vel_y = r.vel_y;
  sequence = r.sequence;
  time_ns = r.time_ns;
  publishes = count;
  valid = 1;
}

module _ (m : Memcpy SourceState) where
  -- Every source's seqlock is at rest, and that of a valid source holds its row.
  pub record IsShown (s : Fast) : Type 0 where
    pub fleet : IsFleet s.fleet
    pub publishes : length s.publishes ≡ max_sources
    pub latest : length s.latest ≡ max_sources
    pub even : (i : ℕ) → (slot m s.latest i).seq % 2 ≡ 0
    pub sized : (i : ℕ) → length (slot m s.latest i).words ≡ m.size
    pub shown :
        (i : ℕ)
        → get_or s.fleet.valid i false ≡ true
        → (slot m s.latest i).words ≡ m.words (state_of s.fleet i (get_or s.publishes i 0))

  module _ (s : Fast) (r : Record) (v : IsShown s) where
    fleet_after : FleetSoA
    fleet_after = (integrate s.fleet r (pos fast_period_ns)).1

    count : ℕ
    count = u32 (get_or s.publishes r.source_id 0 + 1)

    stored : Seqlock
    stored =
        publish (slot m s.latest r.source_id) (m.words (state_of fleet_after r.source_id count))

    stored_lem : stored ≡ record {
      seq = u32 ((slot m s.latest r.source_id).seq + 2);
      words = m.words (state_of fleet_after r.source_id count);
    }
    unfolding stored
    stored_lem =
        publish_lem (slot m s.latest r.source_id) _ (v.sized r.source_id ∙ sym (m.length-words _))

    stored-even : stored.seq % 2 ≡ 0
    stored-even = rw stored_lem (omega (arith, v.even r.source_id))

    stored-sized : length stored.words ≡ m.size
    stored-sized = rw stored_lem (m.length-words _)

    slot_self :
        r.source_id < max_sources → slot m (set s.latest r.source_id stored) r.source_id ≡ stored
    slot_self h = get_or-set_self s.latest r.source_id stored _ (omega (arith, v.latest))

    slot_ne :
        (i : ℕ) → r.source_id ≢ i → slot m (set s.latest r.source_id stored) i ≡ slot m s.latest i
    slot_ne i h = get_or-set_ne s.latest r.source_id i stored _ h

    slot_case :
        (i : ℕ)
        → r.source_id < max_sources
        → (slot m (set s.latest r.source_id stored) i ≡ stored)
          ⊎ (slot m (set s.latest r.source_id stored) i ≡ slot m s.latest i)
    slot_case i h = elim (Bool-cases (r.source_id == i)) [
      | inl e ↦ inl (
          subst (λ j. slot m (set s.latest r.source_id stored) j ≡ stored)
            ((==_iff r.source_id i).0 e) (slot_self h))
      | inr e ↦ inr (slot_ne i (λ met. cc (e, (==_iff r.source_id i).1 met)))
    ]

    row_ne :
        (i : ℕ)
        → (integrate s.fleet r (pos fast_period_ns)).0 ≡ IntegrateStatus.ok
        → (r.source_id == i) ≡ false
        → row fleet_after i ≡ row s.fleet i
    unfolding fleet_after
    row_ne i ok e =
        subst
          (λ (b : Bool).
            row (integrate s.fleet r (pos fast_period_ns)).1 i
            ≡ (if b then stepped s.fleet r fast_period_ns else row s.fleet i))
          e (integrate-row s.fleet r fast_period_ns i v.fleet ok)

    shown_after :
        (i : ℕ)
        → (integrate s.fleet r (pos fast_period_ns)).0 ≡ IntegrateStatus.ok
        → r.source_id < max_sources
        → get_or fleet_after.valid i false ≡ true
        → (slot m (set s.latest r.source_id stored) i).words
          ≡ m.words (state_of fleet_after i (get_or (set s.publishes r.source_id count) i 0))
    unfolding state_of_row
    shown_after i ok known h = elim (Bool-cases (r.source_id == i)) [
      | inl e ↦
          subst
            (λ j.
              (slot m (set s.latest r.source_id stored) j).words
              ≡ m.words (state_of fleet_after j (get_or (set s.publishes r.source_id count) j 0)))
            ((==_iff r.source_id i).0 e)
            (ap (λ (l : Seqlock). l.words) (slot_self known ∙ stored_lem)
              ∙ ap (λ n. m.words (state_of fleet_after r.source_id n))
                  (sym
                    (get_or-set_self s.publishes r.source_id count 0 (omega (arith, v.publishes)))))
      | inr e ↦
          let ne : r.source_id ≢ i = λ met. cc (e, (==_iff r.source_id i).1 met) in
          let same = row_ne i ok e in
          ap (λ (l : Seqlock). l.words) (slot_ne i ne)
          ∙ v.shown i (sym (ap (λ (x : Row). x.valid) same) ∙ h)
          ∙ ap (λ (x : Row). m.words (state_of_row x (get_or s.publishes i 0))) (sym same)
          ∙ ap (λ n. m.words (state_of fleet_after i n))
              (sym (get_or-set_ne s.publishes r.source_id i count 0 ne))
    ]

    publish_record-IsShown :
        (integrate s.fleet r (pos fast_period_ns)).0 ≡ IntegrateStatus.ok
        → IsShown (publish_record m s fleet_after r)
    unfolding publish_record fleet_after count stored
    publish_record-IsShown ok =
        let (known, _, _, _) = integrate-ok s.fleet r fast_period_ns ok in
        record {
          fleet = integrate-IsFleet s.fleet r fast_period_ns v.fleet;
          publishes = length-set s.publishes r.source_id count ∙ v.publishes;
          latest = length-set s.latest r.source_id stored ∙ v.latest;
          even =
              λ i. elim (slot_case i known) [ inl e ↦ rw e stored-even | inr e ↦ rw e (v.even i) ];
          sized = λ i. elim (slot_case i known) [
            | inl e ↦ rw e stored-sized
            | inr e ↦ rw e (v.sized i)
          ];
          shown = λ i h. shown_after i ok known h;
        }

  pub handle_record-IsShown : (s : Fast) (r : Record) → IsShown s → IsShown (handle_record m s r)
  unfolding handle_record fleet_after
  handle_record-IsShown s r v =
      let status = (integrate s.fleet r (pos fast_period_ns)).0 in
      elim (Bool-cases (is_ok status)) [
        | inl e ↦ rw e (publish_record-IsShown s r v (is_ok_iff status e))
        | inr e ↦ rw (e, integrate-refused s.fleet r (pos fast_period_ns) (not_ok status e)) v
      ]

  pub handle_records-IsShown :
      (s : Fast) (rs : List Record) → IsShown s → IsShown (handle_records m s rs)
  unfolding handle_records
  handle_records-IsShown s [] v = v
  handle_records-IsShown s (r ∷ rs) v =
      handle_records-IsShown (handle_record m s r) rs (handle_record-IsShown s r v)

  -- From tables at rest, with each valid source shown: after any sequence of records the seqlock of
  -- a source with an accepted sample holds exactly that source's current row and the number of its
  -- publishes, and a load gets it.
  pub handle_records-shown :
      (s : Fast) (rs : List Record) (i : ℕ) (out : List ℕ)
      → IsShown s
      → get_or (handle_records m s rs).fleet.valid i false ≡ true
      → load m.size (slot m (handle_records m s rs).latest i) out ≡ (
        true,
        m.words (
            state_of
              (handle_records m s rs).fleet
              i
              (get_or (handle_records m s rs).publishes i 0)),
      )
  handle_records-shown s rs i out v h =
      let w = handle_records-IsShown s rs v in
      load-even m.size (slot m (handle_records m s rs).latest i) out (w.sized i) (w.even i)
      ∙ ap (λ (t : List ℕ). (true, t)) (w.shown i h)
