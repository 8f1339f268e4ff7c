-- ===== src/Supervisor/Status.antt =====
-- What the layout and the exit status say after `run_once_pipeline` of src/supervisor.cpp.
use ratehub.Prelude.{
  ℕ, zero, suc, ◌+◌, ◌^◌, ◌≤◌, ◌<◌, ◌≡◌, ◌↔◌, refl, ◌∙◌, inl, inr, true, Bool-cases, arith, ◌==◌,
}
use ratehub.Prelude.Int.{ℤ, pos, negsuc}
use ratehub.Prelude.Words.{u32}
use ratehub.Layout.{Layout}
use ratehub.Supervisor.{
  Role, WaitStatus, Children, exit_status, wait_child, run_compute, next_generation, run_attempts,
  start_pipeline, stop_pipeline, run_once_pipeline, max_compute_attempts,
}

-- The fields that only the supervisor writes.
pub record KeptBy (children : Children) : Type 0 where
  pub compute_exit :
      (r : Role) (n : ℕ) (l : Layout)
      → (children.waited r n l).1.supervisor.compute_exit ≡ l.supervisor.compute_exit
  pub ingest_exit :
      (r : Role) (n : ℕ) (l : Layout)
      → (children.waited r n l).1.supervisor.ingest_exit ≡ l.supervisor.ingest_exit
  pub generation :
      (r : Role) (n : ℕ) (l : Layout)
      → (children.waited r n l).1.control.generation ≡ l.control.generation
  pub shutdown :
      (r : Role) (n : ℕ) (l : Layout)
      → (children.waited r n l).1.control.shutdown ≡ l.control.shutdown

exit_status-lt : (s : WaitStatus) → exit_status s < 2 ^ 8
unfolding exit_status
exit_status-lt WaitStatus.failed = omega arith
exit_status-lt (WaitStatus.exited code) = omega arith
exit_status-lt WaitStatus.signaled = omega arith

module _ (children : Children) where
  wait_child-lt :
      (r : Role) (n : ℕ) (pid : ℤ) (l : Layout) → (wait_child children r n pid l).0 < 2 ^ 8
  unfolding wait_child
  wait_child-lt r n (pos i) l = exit_status-lt (children.waited r n l).0
  wait_child-lt r n (negsuc i) l = omega arith

  module _ (kept : KeptBy children) where
    wait_child-kept :
        (r : Role) (n : ℕ) (pid : ℤ) (l : Layout)
        → ((wait_child children r n pid l).1.supervisor.compute_exit ≡ l.supervisor.compute_exit)
          × ((wait_child children r n pid l).1.supervisor.ingest_exit ≡ l.supervisor.ingest_exit)
          × ((wait_child children r n pid l).1.control.generation ≡ l.control.generation)
          × ((wait_child children r n pid l).1.control.shutdown ≡ l.control.shutdown)
    unfolding wait_child
    wait_child-kept r n (pos i) l = (
      kept.compute_exit r n l,
      kept.ingest_exit r n l,
      kept.generation r n l,
      kept.shutdown r n l,
    )
    wait_child-kept r n (negsuc i) l = (refl, refl, refl, refl)

    run_compute-noted :
        (n : ℕ) (l : Layout)
        → ((run_compute children n l).1.supervisor.compute_exit ≡ (run_compute children n l).0)
          × ((run_compute children n l).1.control.generation ≡ l.control.generation)
    unfolding run_compute
    run_compute-noted n l =
        let compute = children.spawned Role.compute n in
        let (_, _, g, _) = wait_child-kept Role.compute n compute _ in
        (omega (arith, wait_child-lt Role.compute n compute _), g)

    -- The loop ends well exactly if the last status noted is 0.
    run_attempts-exit :
        (left n : ℕ) (l : Layout)
        → 0 < left
        → ((run_attempts children left n l).0 ≡ true)
          ↔ ((run_attempts children left n l).1.supervisor.compute_exit ≡ 0)
    unfolding run_attempts
    run_attempts-exit zero n l h = absurd (omega arith)
    run_attempts-exit (suc zero) n l h = ground (arith, run_compute-noted n l)
    run_attempts-exit (suc (suc left)) n l h = ground (
      arith,
      run_compute-noted n l,
      run_attempts-exit (suc left) (suc n) (next_generation (run_compute children n l).1)
          (omega arith),
    )

    -- Each attempt but the last one made has failed with a step of the generation.
    run_attempts-generation :
        (left n : ℕ) (l : Layout)
        → 0 < left
        → (r : ℕ) × (r < left)
          × (u32 (run_attempts children left n l).1.control.generation
              ≡ u32 (l.control.generation + r))
    unfolding run_attempts
    run_attempts-generation zero n l h = absurd (omega arith)
    run_attempts-generation (suc zero) n l h =
        (0, omega arith, ground (arith, run_compute-noted n l))
    run_attempts-generation (suc (suc left)) n l h =
        elim (Bool-cases ((run_compute children n l).0 == 0)) [
          | inl e ↦ (0, omega arith, rw e (omega (arith, run_compute-noted n l)))
          | inr e ↦
              let (r, less, same) =
                run_attempts-generation (suc left) (suc n)
                  (next_generation (run_compute children n l).1) (omega arith) in
              (suc r, omega arith, ground (arith, run_compute-noted n l))
        ]

    stop_pipeline-noted :
        (l : Layout)
        → ((stop_pipeline children l).2.supervisor.ingest_exit ≡ (stop_pipeline children l).0)
          × ((stop_pipeline children l).2.supervisor.publish_exit ≡ (stop_pipeline children l).1)
          × ((stop_pipeline children l).2.supervisor.compute_exit ≡ l.supervisor.compute_exit)
          × ((stop_pipeline children l).2.control.generation ≡ l.control.generation)
          × ((stop_pipeline children l).2.control.shutdown ≡ 1)
    unfolding stop_pipeline
    stop_pipeline-noted l =
        let ingest = children.spawned Role.ingest 1 in
        let publish = children.spawned Role.publish 1 in
        let (c, _, g, d) = wait_child-kept Role.ingest 1 ingest _ in
        let (c', i, g', d') = wait_child-kept Role.publish 1 publish _ in
        (
          omega (arith, i, wait_child-lt Role.ingest 1 ingest _),
          omega (arith, wait_child-lt Role.publish 1 publish _),
          c' ∙ c,
          g' ∙ g,
          d' ∙ d,
        )

    -- A run of the pipeline reports success exactly if the exit statuses that it has noted of all
    -- three processes are 0: whatever the processes do, provided that they leave these slots alone.
    pub run_once_pipeline_iff :
        (l : Layout)
        → ((run_once_pipeline children l).0 ≡ 0) ↔ (
            ((run_once_pipeline children l).1.supervisor.compute_exit ≡ 0)
            × ((run_once_pipeline children l).1.supervisor.ingest_exit ≡ 0)
            × ((run_once_pipeline children l).1.supervisor.publish_exit ≡ 0))
    unfolding run_once_pipeline
    run_once_pipeline_iff l =
        let attempted =
          (run_attempts children max_compute_attempts 1 (start_pipeline children l)).1 in
        ground (
          arith,
          run_attempts-exit max_compute_attempts 1 (start_pipeline children l) (omega arith),
          stop_pipeline-noted attempted,
        )

    -- A run ends with shutdown requested, and has moved the generation on, modulo 2 ^ 32, by at most
    -- two, the most restarts of the compute process: provided that the processes leave to the
    -- supervisor the fields that it alone writes.
    pub run_once_pipeline-restarts :
        (l : Layout)
        → ((run_once_pipeline children l).1.control.shutdown ≡ 1)
          × ((r : ℕ) × (r ≤ 2)
              × (u32 (run_once_pipeline children l).1.control.generation
                  ≡ u32 (l.control.generation + r)))
    unfolding run_once_pipeline start_pipeline
    run_once_pipeline-restarts l =
        let (r, few, same) =
          run_attempts-generation max_compute_attempts 1 (start_pipeline children l)
            (omega arith) in
        let attempted =
          (run_attempts children max_compute_attempts 1 (start_pipeline children l)).1 in
        let (_, _, _, g, d) = stop_pipeline-noted attempted in
        (ground (arith, d), (r, omega arith, ground (arith, g, same)))
