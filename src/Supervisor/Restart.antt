-- ===== src/Supervisor/Restart.antt =====
-- Restarts in src/supervisor.cpp: a run after a reset starts from a fresh block, and a restart within a
-- run does not.
use ratehub.Prelude.{
  ℕ, zero, suc, ◌+◌, ◌≡◌, ◌≢◌, ◌⊎◌, refl, sym, subst, inl, inr, Bool, false, Option, some, List,
  arith, ==_refl, ◌==◌, if◌then◌else◌,
}
use ratehub.Prelude.Int.{ℤ, pos, negsuc}
use ratehub.Prelude.Words.{u32}
use ratehub.Layout.{Layout, SourceState, WindowState, new_control, new_supervisor}
use ratehub.Compute.{Memcpy}
use ratehub.Shm.{System, ShmWorld}
use ratehub.Roles as Roles
use ratehub.Roles.Fault.{run_compute-fault}
use ratehub.Supervisor.{
  Role, WaitStatus, Children, exit_status, wait_child, run_compute, next_generation, run_attempts,
  start_pipeline, run_once_pipeline, max_compute_attempts, reset_control,
}

-- A reset gives both blocks the values of a new mapping, but for the fields that outlive a run: the
-- header and the generation, which moves on, and the observer's process, release and request.
reset_control-fresh :
    (l : Layout)
    → ((reset_control l).control ≡ record new_control {
      magic = l.control.magic;
      schema = l.control.schema;
      reserved = l.control.reserved;
      generation = u32 (l.control.generation + 1);
    })
      × ((reset_control l).supervisor ≡ record new_supervisor {
        observe_pid = l.supervisor.observe_pid;
        observe_release = l.supervisor.observe_release;
        rerun_request = l.supervisor.rerun_request;
      })
unfolding reset_control
reset_control-fresh l = (refl, refl)

-- The compute processes of a run, each with what its start finds and what its threads make of the
-- layout until the joins; the name leads to the object `id`.
pub record Computes : Type 0 where
  pub source_copy : Memcpy SourceState
  pub window_copy : Memcpy WindowState
  pub name : List ℕ
  pub crash : ℕ → Option (List ℕ)
  pub writable : ℕ → Bool
  pub files : ℕ → List (List ℕ)
  pub world : ℕ → ShmWorld
  pub threads : ℕ → Layout → Layout
  pub system : System
  pub id : ℕ
  pub reaches : system.names name ≡ some id

-- The system, with the layout behind the name.
abbrev system_on : Computes → Layout → System
system_on c l = record c.system { object = λ k. if k == c.id then l else c.system.object k }

-- What the wait reports of the process of the attempt `n`, which is `run_compute` of src/compute.cpp.
abbrev pub compute_child : Computes → ℕ → Layout → WaitStatus × Layout
compute_child c n l =
    let (rc, files', s') =
      Roles.run_compute c.source_copy c.window_copy c.name (c.crash n) (c.writable n) (c.files n)
        (c.world n) (c.threads n) (system_on c l) in
    (WaitStatus.exited rc, s'.object c.id)

-- Of `left` attempts from `n` on: one of those that are made leaves the fault set, and fails.
unfoldable pub FaultsFrom : Children → ℕ → ℕ → Layout → Type 0
FaultsFrom children zero n l = ⊥
FaultsFrom children (suc left) n l =
    let (status, ended) = run_compute children n l in
    (status ≢ 0)
    × ((ended.control.fault ≢ 0) ⊎ FaultsFrom children left (suc n) (next_generation ended))

-- One of the attempts that are made in a run fails and leaves the fault set.
abbrev pub Faults : Children → Layout → Type 0
Faults children l = FaultsFrom children max_compute_attempts 1 (start_pipeline children l)

module _ (children : Children) (c : Computes)
    (keeps : (n : ℕ) (l : Layout) → l.control.fault ≢ 0 → (c.threads n l).control.fault ≢ 0)
    (runs : (n : ℕ) (l : Layout) → children.waited Role.compute n l ≡ compute_child c n l) where
  -- A process that starts with the fault set fails, and leaves it set.
  waited-fault :
      (n : ℕ) (l : Layout)
      → l.control.fault ≢ 0
      → (exit_status (children.waited Role.compute n l).0 ≢ 0)
        × ((children.waited Role.compute n l).1.control.fault ≢ 0)
  unfolding exit_status
  waited-fault n l h =
      let s = system_on c l in
      let same : s.object c.id ≡ l = rw (==_refl c.id) refl in
      let (some_code, small, stays) =
        run_compute-fault c.source_copy c.window_copy (c.threads n) c.id s
          (subst (λ x. x.control.fault ≢ 0) (sym same) h)
          (subst (λ x. (c.threads n x).control.fault ≢ 0) (sym same) (keeps n l h)) c.name
          (c.crash n) (c.writable n) (c.files n) (c.world n) c.reaches in
      rw (runs n l) (λ e. absurd (omega (arith, e, some_code, small)), stays)

  wait_child-fault :
      (n : ℕ) (pid : ℤ) (l : Layout)
      → l.control.fault ≢ 0
      → ((wait_child children Role.compute n pid l).0 ≢ 0)
        × ((wait_child children Role.compute n pid l).1.control.fault ≢ 0)
  unfolding wait_child
  wait_child-fault n (pos i) l h = waited-fault n l h
  wait_child-fault n (negsuc i) l h = (λ e. absurd (omega arith), h)

  run_compute-fault_left :
      (n : ℕ) (l : Layout)
      → l.control.fault ≢ 0
      → ((run_compute children n l).0 ≢ 0) × ((run_compute children n l).1.control.fault ≢ 0)
  unfolding run_compute
  run_compute-fault_left n l h = wait_child-fault n (children.spawned Role.compute n) _ h

  run_attempts-fault :
      (left n : ℕ) (l : Layout) → l.control.fault ≢ 0 → (run_attempts children left n l).0 ≡ false
  unfolding run_attempts
  run_attempts-fault zero n l h = refl
  run_attempts-fault (suc left) n l h = ground (
    arith,
    run_compute-fault_left n l h,
    run_attempts-fault left (suc n) (next_generation (run_compute children n l).1)
        (run_compute-fault_left n l h).1,
  )

  run_attempts-FaultsFrom :
      (left n : ℕ) (l : Layout)
      → FaultsFrom children left n l
      → (run_attempts children left n l).0 ≡ false
  unfolding FaultsFrom run_attempts
  run_attempts-FaultsFrom zero n l h = absurd h
  run_attempts-FaultsFrom (suc left) n l (bad, h) =
      let ended = next_generation (run_compute children n l).1 in
      let rest : (run_attempts children left (suc n) ended).0 ≡ false = elim h [
        | inl set ↦ run_attempts-fault left (suc n) ended set
        | inr later ↦ run_attempts-FaultsFrom left (suc n) ended later
      ] in
      ground (arith, bad, rest)

  -- If one of the attempts that are made in a run fails and leaves the fault set, as by the watchdog, the
  -- run returns 1, however the attempts after it end: where the children are the processes of
  -- src/compute.cpp, whose threads do not clear the fault.
  pub faulted_run_fails : (l : Layout) → Faults children l → (run_once_pipeline children l).0 ≡ 1
  unfolding run_once_pipeline
  faulted_run_fails l h =
      ground (arith, run_attempts-FaultsFrom max_compute_attempts 1 (start_pipeline children l) h)
