-- ===== src/Supervisor/Runs/Loop.antt =====
-- How the loop over the runs of src/supervisor.cpp ends, with an observer or without one.
use ratehub.Prelude.{
  subst, ◌⊎◌, ℕ, ◌≡◌, refl, sym, ◌∙◌, inl, inr, ap, Bool, true, false, ◌||◌, Bool-cases, List, [],
  ◌∷◌, ◌++◌, if◌then◌else◌,
}
use ratehub.Layout.{Layout, take_rerun}
use ratehub.Supervisor.{reset_control, run_once_pipeline}
use ratehub.Supervisor.Runs.{Poll, Run, Held, hold, after_run, run_loop}

-- Whether a signal comes within the polls.
unfoldable pub stops : List Poll → Bool
stops [] = false
stops (p ∷ polls) = p.stopped || stops polls

-- Whether one comes in the wait after each run.
unfoldable pub all_stop : List Run → Bool
unfolding stops
all_stop [] = true
all_stop (run ∷ runs) = if stops run.polls then all_stop runs else false

-- A wait with a signal among its polls does not outlast them.
hold-stops :
    (polls : List Poll) (layout : Layout)
    → stops polls ≡ true
    → ((hold polls layout).0 ≡ Held.stop) ⊎ ((hold polls layout).0 ≡ Held.rerun)
unfolding stops hold
hold-stops [] layout h = absurd cc
hold-stops (p ∷ polls) layout h = elim (Bool-cases p.stopped) [
  | inl e ↦ rw e (inl refl)
  | inr e ↦ elim (Bool-cases (take_rerun (p.layout layout).supervisor).0) [
    | inl asked ↦ rw (e, asked) (inr refl)
    | inr quiet ↦
        let later : stops polls ≡ true = sym (rw e refl) ∙ h in
        rw (e, quiet)
          (hold-stops polls
            (record (p.layout layout) { supervisor = (take_rerun (p.layout layout).supervisor).1 })
            later)
  ]
]

hold-stop_first :
    (p : Poll) (polls : List Poll) (layout : Layout)
    → p.stopped ≡ true
    → (hold (p ∷ polls) layout).0 ≡ Held.stop
unfolding hold
hold-stop_first p polls layout h = rw h refl

-- What is left by one run of the pipeline that starts on the layout.
abbrev left_by : Run → Layout → Layout
left_by run layout = (run_once_pipeline run.children layout).1

-- Of the loop whose first run starts on the first layout: the last run that it makes, and the layout that
-- this run starts on. Each run but the last is followed by a request for another one, and the next run
-- starts on what `reset_control` makes of the layout then.
pub data LastRun (holds : Bool) : List Run → Layout → Run → Layout → Type 0 where
  ends_with :
      {run : Run} {runs : List Run} {layout : Layout}
      → (holds ≡ false) ⊎ ((hold run.polls (left_by run layout)).0 ≡ Held.stop)
      → LastRun holds (run ∷ runs) layout run layout
  goes_on :
      {run : Run} {runs : List Run} {layout : Layout} {end : Run} {at : Layout}
      → holds ≡ true
      → (hold run.polls (left_by run layout)).0 ≡ Held.rerun
      → LastRun holds runs (reset_control (hold run.polls (left_by run layout)).1) end at
      → LastRun holds (run ∷ runs) layout end at

-- The loop has ended, and returns the status of its last run.
abbrev pub Ends : Bool → List Run → Layout → Bool × ℕ × Layout → Type 0
Ends holds runs layout result =
    (result.0 ≡ true)
    × (run : Run) × (at : Layout) × LastRun holds runs layout run at
    × (result.1 ≡ (run_once_pipeline run.children at).0)

after_run-Ends :
    (run : Run) (runs : List Run) (begun : Layout) (held : Held × Layout)
    → hold run.polls (left_by run begun) ≡ held
    → (held.0 ≡ Held.stop)
      ⊎ ((held.0 ≡ Held.rerun)
          × ((l : Layout) → Ends true runs (reset_control l) (run_loop true runs false l)))
    → Ends true
        (run ∷ runs)
        begun
        (after_run (run_loop true runs false) (run_once_pipeline run.children begun).0 held)
unfolding after_run
after_run-Ends run runs begun (Held.stop, layout) same h =
    (refl, run, begun, LastRun.ends_with (inr (ap (λ q. q.0) same)), refl)
after_run-Ends run runs begun (Held.rerun, layout) same (inl e) = absurd cc
after_run-Ends run runs begun (Held.rerun, layout) same (inr (e, rest)) =
    let (ended, r, at, last, status) = rest layout in
    let moved =
      subst (λ l. LastRun true runs (reset_control l) r at) (sym (ap (λ q. q.1) same)) last in
    (ended, r, at, LastRun.goes_on refl (ap (λ q. q.0) same) moved, status)
after_run-Ends run runs begun (Held.waiting, layout) same (inl e) = absurd cc
after_run-Ends run runs begun (Held.waiting, layout) same (inr (e, rest)) = absurd cc

abbrev pub layout_at : Bool → Layout → Layout
layout_at first layout = if first then layout else reset_control layout

-- One round of the loop.
round-Ends :
    (run : Run) (runs : List Run) (holds first : Bool) (layout : Layout)
    → let begun = layout_at first layout in
      ((hold run.polls (left_by run begun)).0 ≡ Held.stop)
        ⊎ (((hold run.polls (left_by run begun)).0 ≡ Held.rerun)
            × ((l : Layout) → Ends holds runs (reset_control l) (run_loop holds runs false l)))
      → Ends holds (run ∷ runs) begun (run_loop holds (run ∷ runs) first layout)
unfolding run_loop
round-Ends run runs false first layout h =
    (refl, run, layout_at first layout, LastRun.ends_with (inl refl), refl)
round-Ends run runs true first layout h =
    let begun = layout_at first layout in
    after_run-Ends run runs begun (hold run.polls (left_by run begun)) refl h

pub run_loop-Ends :
    (before : List Run) (last : Run) (after : List Run) (p : Poll) (polls : List Poll)
    (holds first : Bool) (layout : Layout)
    → all_stop before ≡ true
    → last.polls ≡ p ∷ polls
    → p.stopped ≡ true
    → Ends holds
        (before ++ (last ∷ after))
        (layout_at first layout)
        (run_loop holds (before ++ (last ∷ after)) first layout)
unfolding all_stop
run_loop-Ends [] last after p polls holds first layout h same stopped =
    let ended = (run_once_pipeline last.children (layout_at first layout)).1 in
    round-Ends last after holds first layout (
      inl (
        subst (λ l. (hold l ended).0 ≡ Held.stop) (sym same)
          (hold-stop_first p polls ended stopped)))
run_loop-Ends (run ∷ before) last after p polls holds first layout h same stopped =
    let ended = (run_once_pipeline run.children (layout_at first layout)).1 in
    let runs = before ++ (last ∷ after) in
    elim (Bool-cases (stops run.polls)) [
      | inr e ↦ let no : false ≡ true = sym (rw e refl) ∙ h in absurd cc
      | inl e ↦
          let rest : all_stop before ≡ true = sym (rw e refl) ∙ h in
          round-Ends run runs holds first layout (elim (hold-stops run.polls ended e) [
            | inl stop ↦ inl stop
            | inr rerun ↦ inr (
              rerun,
              λ l. run_loop-Ends before last after p polls holds false l rest same stopped,
            )
          ])
    ]
