-- ===== src/Launch.antt =====
-- src/main.cpp, and `spawn_child` of src/supervisor.cpp: which part of the program an argument vector
-- starts. An argument is the list of its bytes; `atoi` belongs to the C library, and is a parameter.
pub mod Laws
mod Tests
use ratehub.Prelude.{
  ℕ, zero, suc, ◌+◌, ◌^◌, Bool, true, false, ◌&&◌, Option, none, some, List, [], ◌∷◌, ◌++◌, length,
  ltb, leb, ◌==◌, if◌then◌else◌,
}
use ratehub.Prelude.Int.{ℤ}
use ratehub.Prelude.Words.{to_unsigned}
use ratehub.Prelude.Text.{codes, bytes_eq}

-- The entry point that `main` calls, with its arguments.
pub data Entry : Type 0 where
  run_ingest : List ℕ → List ℕ → Entry
  run_compute : List ℕ → Entry
  run_publish : List ℕ → List ℕ → Entry
  run_observe : List ℕ → ℕ → ℕ → List ℕ → Entry
  run_supervisor : List ℕ → List ℕ → List ℕ → ℕ → Entry
  usage : Entry

-- The bytes before the last `/`, if there is one.
unfoldable pub before_last_slash : List ℕ → Option (List ℕ)
before_last_slash [] = none
before_last_slash (c ∷ s) = elim (before_last_slash s) [
  | some front ↦ some (c ∷ front)
  | none ↦ if c == b'/' then some [] else none
]

unfoldable pub web_root_from_exe : List ℕ → List ℕ
web_root_from_exe argv0 = elim (before_last_slash argv0) [
  | none ↦ codes "web"
  | some front ↦ front ++ codes "/web"
]

-- `argv[i]`; the reads of `main` are below `argc`.
unfoldable pub arg : List (List ℕ) → ℕ → List ℕ
arg [] i = []
arg (a ∷ args) zero = a
arg (a ∷ args) (suc i) = arg args i

module _ (atoi : List ℕ → ℤ) where
  unfoldable pub main : List (List ℕ) → Entry
  main argv =
      let argc = length argv in
      let is : List ℕ → Bool = λ role. bytes_eq (arg argv 1) role in
      if leb 4 argc && is (codes "ingest")
      then run_ingest (arg argv 2) (arg argv 3)
      else if argc == 3 && is (codes "compute")
      then run_compute (arg argv 2)
      else if argc == 4 && is (codes "publish")
      then run_publish (arg argv 2) (arg argv 3)
      else if leb 4 argc && is (codes "observe")
      then run_observe (arg argv 2) (to_unsigned (2 ^ 16) (atoi (arg argv 3)))
          (if leb 5 argc then to_unsigned (2 ^ 32) (atoi (arg argv 4)) else 100)
          (web_root_from_exe (arg argv 0))
      else if leb 4 argc && is (codes "run")
      then run_supervisor (arg argv 0) (arg argv 2) (arg argv 3) (
          if leb 6 argc && bytes_eq (arg argv 4) (codes "--observe-port")
          then to_unsigned (2 ^ 16) (atoi (arg argv 5))
          else 0)
      else usage

-- The arguments with which `spawn_child` starts `exe`; `extra` is `none` for a null pointer.
unfoldable pub child_argv : List ℕ → List ℕ → List ℕ → Option (List ℕ) → List (List ℕ)
child_argv exe role shm none = exe ∷ role ∷ shm ∷ []
child_argv exe role shm (some extra) = exe ∷ role ∷ shm ∷ extra ∷ []
