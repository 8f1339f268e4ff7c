-- ===== src/Publish.antt =====
-- src/publish.cpp: the loop that waits for a snapshot, and the rows of the output file. What the loop
-- reads of the mapping in one round is a `Round`; a schedule of the other processes is a list of them.
pub mod Laws
pub mod Waiting
pub mod Place
pub mod Sent
pub mod Inv
pub mod Final
pub mod Stale
pub mod Finish
mod Tests
use ratehub.Prelude.{
  ℕ, zero, suc, ◌+◌, Bool, true, false, not, ◌&&◌, Option, none, some, List, [], ◌∷◌, ◌==◌,
  if◌then◌else◌,
}
use ratehub.Prelude.Int.{ℤ}
use ratehub.Prelude.Words.{u64}
use ratehub.Layout.{WindowState, Snapshot}

-- `offered` is the slot that a `consume` in this round adopts, if it succeeds.
pub record Round : Type 0 where
  pub shutdown : ℕ
  pub offered : Option Snapshot
  pub compute_done : ℕ

-- `last` and `have`: no snapshot is `none`.
pub record Publisher : Type 0 where
  pub last : Option Snapshot
  pub beats : ℕ

abbrev pub newer : Option Snapshot → Option Snapshot → Option Snapshot
newer none last = last
newer (some s) last = some s

abbrev pub have : Option Snapshot → Bool
have none = false
have (some s) = true

-- The loop over the rounds: whether it has ended, and its variables.
unfoldable pub publish_loop : List Round → Publisher → Bool × Publisher
publish_loop [] p = (false, p)
publish_loop (r ∷ rounds) p =
    let p' : Publisher = record { last = newer r.offered p.last; beats = u64 (p.beats + 1) } in
    let rest = publish_loop rounds p' in
    if not (r.shutdown == 0)
    then (true, p)
    else if not (r.compute_done == 0) && have p'.last
    then (true, p')
    else rest

-- The four fields of a row of the file.
pub record Line : Type 0 where
  pub id : ℕ
  pub pos_x : ℤ
  pub pos_y : ℤ
  pub publishes : ℕ

abbrev pub line : ℕ → WindowState → Line
line id w = record { id = id; pos_x = w.pos_x; pos_y = w.pos_y; publishes = w.publishes }

-- The loop over the rows, from source `id` on.
unfoldable pub lines_from : ℕ → List WindowState → List Line
lines_from id [] = []
lines_from id (w ∷ rows) =
    let rest = lines_from (suc id) rows in if w.publishes == 0 then rest else line id w ∷ rest

-- `rc`, and the generation and the rows that are written, by whether the file opens.
unfoldable pub write_out : Bool → Option Snapshot → ℕ × Option (ℕ × List Line)
unfolding lines_from
write_out opens none = (0, none)
write_out opens (some s) =
    if opens then (0, some (s.generation, lines_from 0 s.rows)) else (1, none)
