-- ===== src/Replay.antt =====
-- tools/make_replay.cpp: the frames of a replay file.
pub mod Laws
mod Tests
use Prim.Native.Nat.{bit_and}
use ratehub.Prelude.{
  ℕ, zero, suc, ◌+◌, ◌-◌, ◌*◌, ◌%◌, ◌^◌, Bool, true, false, not, Option, none, some, List, [], ◌∷◌,
  ◌++◌, ◌==◌, if◌then◌else◌,
}
use ratehub.Prelude.Int.{ℤ, pos, negsuc, ◌-ℤ◌}
use ratehub.Prelude.Words.{u32, to_signed}
use ratehub.Prelude.Text.{codes, bytes_eq}
use ratehub.Types.{Record, blank_record}
use ratehub.Frame.{encode_frame}

-- The options: the file's path, and whether the long file is asked for.
unfoldable pub options : List (List ℕ) → List ℕ → Bool → List ℕ × Bool
options [] path demo = (path, demo)
options (a ∷ args) path demo =
    let next = options args path true in
    let next' = options args a demo in if bytes_eq a (codes "--demo") then next else next'

-- The record of the short file's frame `seq`.
abbrev pub short_record : ℕ → Record
short_record seq = record blank_record {
  source_id = 1;
  sequence = seq;
  pos_x = pos 1000;
  vel_x = pos 2000;
}

-- Frames `seq` and on, with `left` of them left.
unfoldable pub short_from : ℕ → ℕ → List Record
short_from zero seq = []
short_from (suc left) seq = short_record seq ∷ short_from left (suc seq)

-- The unsigned `- n`.
abbrev pub negated : ℕ → ℕ
negated n = u32 (2 ^ 32 - n)

abbrev pub demo_record : ℕ → ℕ → Record
demo_record seq id = record blank_record {
  source_id = id;
  sequence = seq;
  pos_x = pos (id * 800) -ℤ pos 2800;
  pos_y = pos (id % 2 * 1500) -ℤ pos 750;
  vel_x = to_signed (2 ^ 31) (400 + id * 80);
  vel_y = to_signed (2 ^ 31) (if bit_and id 1 == 0 then negated (280 + id * 30) else 280 + id * 30);
}

-- One tick, from source `id` on.
unfoldable pub demo_tick : ℕ → ℕ → ℕ → List Record
demo_tick zero id seq = []
demo_tick (suc left) id seq = demo_record seq id ∷ demo_tick left (suc id) seq

unfoldable pub demo_from : ℕ → ℕ → List Record
unfolding demo_tick
demo_from zero seq = []
demo_from (suc left) seq = demo_tick 8 0 seq ++ demo_from left (suc seq)

abbrev pub replay_records : Bool → List Record
replay_records true = demo_from 500 1
replay_records false = short_from 2 1

-- Whether every record could be encoded, and the frames written. `frame` is what the array holds
-- before.
unfoldable pub write_frames : List ℕ → List Record → Bool × List (List ℕ)
write_frames frame [] = (true, [])
write_frames frame (r ∷ rs) =
    let (ok, bytes) = encode_frame r frame in
    let (all, frames) = write_frames frame rs in if ok then (all, bytes ∷ frames) else (false, [])

-- The exit status and the frames of the file, by whether that opens.
unfoldable pub make_replay : List ℕ → Bool → List (List ℕ) → ℕ × List (List ℕ)
make_replay frame opens args =
    let (path, demo) = options args (codes "replay.bin") false in
    let (all, frames) = write_frames frame (replay_records demo) in
    if not opens then (1, []) else (if all then 0 else 1, frames)
