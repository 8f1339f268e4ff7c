-- ===== src/Launch/Laws.antt =====
-- Each process that the supervisor spawns runs the part of the program that it is spawned for.
use ratehub.Prelude.{ℕ, ◌%◌, ◌^◌, ◌<◌, ◌≡◌, refl, none, some, List, arith}
use ratehub.Prelude.Int.{ℤ, pos}
use ratehub.Prelude.Text.{codes, decimal, bytes_eq}
use ratehub.Launch.{Entry, main, child_argv, web_root_from_exe, arg}
use ratehub.Supervisor.{Role}

-- The arguments that `run_once_pipeline` gives each of its children.
abbrev pub role_argv : List ℕ → List ℕ → List ℕ → List ℕ → Role → List (List ℕ)
role_argv exe shm replay out Role.ingest = child_argv exe (codes "ingest") shm (some replay)
role_argv exe shm replay out Role.publish = child_argv exe (codes "publish") shm (some out)
role_argv exe shm replay out Role.compute = child_argv exe (codes "compute") shm none

abbrev pub role_entry : List ℕ → List ℕ → List ℕ → Role → Entry
role_entry shm replay out Role.ingest = Entry.run_ingest shm replay
role_entry shm replay out Role.publish = Entry.run_publish shm out
role_entry shm replay out Role.compute = Entry.run_compute shm

-- Whatever the names are, `main` runs each child of a run as what it was spawned for: with the shared
-- object, and the replay file or the output file.
main-role_argv :
    (atoi : List ℕ → ℤ) (exe shm replay out : List ℕ) (role : Role)
    → main atoi (role_argv exe shm replay out role) ≡ role_entry shm replay out role
unfolding main child_argv arg bytes_eq
main-role_argv atoi exe shm replay out Role.ingest = refl
main-role_argv atoi exe shm replay out Role.publish = refl
main-role_argv atoi exe shm replay out Role.compute = refl

-- The observer's child listens on the port that the supervisor was given, when `atoi` reads back what
-- `snprintf` wrote of it.
main-observe :
    (atoi : List ℕ → ℤ) (exe shm : List ℕ) (port : ℕ)
    → port < 2 ^ 16
    → atoi (decimal port) ≡ pos port
    → main atoi (child_argv exe (codes "observe") shm (some (decimal port)))
      ≡ Entry.run_observe shm port 100 (web_root_from_exe exe)
unfolding main child_argv arg bytes_eq
main-observe atoi exe shm port small read =
    let same : port % 2 ^ 16 ≡ port = omega arith in rw (read, same) refl
