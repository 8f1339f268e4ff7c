-- ===== src/Publish/Laws.antt =====
-- What the process of src/publish.cpp writes.
use ratehub.Prelude.{
  ℕ, zero, suc, ◌+◌, ◌<◌, ◌≡◌, ◌≢◌, refl, Bool, true, ◌&&◌, Option, none, some, List, [], ◌∷◌, ◌++◌,
  length, get_or, ◌==◌, if◌then◌else◌, arith,
}
use ratehub.Prelude.Words.{u64}
use ratehub.Layout.{Snapshot, WindowState, blank_window}
use ratehub.Publish.{Round, Publisher, newer, have, publish_loop, Line, line, lines_from}

-- The last snapshot offered in some rounds.
unfoldable latest : List Round → Option Snapshot → Option Snapshot
latest [] last = last
latest (r ∷ rounds) last = latest rounds (newer r.offered last)

-- Rounds in which the pipeline still runs.
unfoldable still_running : List Round → Bool
still_running [] = true
still_running (r ∷ rounds) = r.shutdown == 0 && r.compute_done == 0 && still_running rounds

abbrev next_publisher : Round → Publisher → Publisher
next_publisher r p = record { last = newer r.offered p.last; beats = u64 (p.beats + 1) }

-- If the loop sees the end of the compute process before a shutdown, with a snapshot offered by then,
-- it ends in that round with the snapshot offered last.
publish_loop-latest :
    (before after : List Round) (r : Round) (p : Publisher)
    → still_running before ≡ true
    → r.shutdown ≡ 0
    → r.compute_done ≢ 0
    → have (newer r.offered (latest before p.last)) ≡ true
    → ((publish_loop (before ++ (r ∷ after)) p).0 ≡ true)
      × ((publish_loop (before ++ (r ∷ after)) p).1.last ≡ newer r.offered (latest before p.last))
unfolding publish_loop latest still_running
publish_loop-latest [] after r p running up done offered = ground arith
publish_loop-latest (b ∷ before) after r p running up done offered =
    ground (arith, publish_loop-latest before after r (next_publisher b p))

-- The row of a source in the file: the first with its number.
unfoldable pub find_line : ℕ → List Line → Option Line
find_line id [] = none
find_line id (l ∷ lines) = if l.id == id then some l else find_line id lines

find_line-later :
    (id j : ℕ) (rows : List WindowState) → j < id → find_line j (lines_from id rows) ≡ none
unfolding find_line lines_from
find_line-later id j [] h = refl
find_line-later id j (w ∷ rows) h = ground (arith, find_line-later (suc id) j rows (omega arith))

-- The rows of the file are those of the sources with a publish, each under its own number.
pub find_line-lines_from :
    (id i j : ℕ) (rows : List WindowState)
    → i < length rows
    → id + i ≡ j
    → find_line j (lines_from id rows) ≡ (
        if (get_or rows i blank_window).publishes == 0
        then none
        else some (line j (get_or rows i blank_window)))
unfolding find_line lines_from
find_line-lines_from id i j [] h e = absurd (omega arith)
find_line-lines_from id zero j (w ∷ rows) h e =
    let same : id ≡ j = omega arith in ground (arith, find_line-later (suc id) j rows (omega arith))
find_line-lines_from id (suc i) j (w ∷ rows) h e =
    ground (arith, find_line-lines_from (suc id) i j rows (omega arith) (omega arith))
