-- ===== src/Compute/Stages/Tests.antt =====
-- A whole run of the threads of src/compute.cpp over one record.
use ratehub.Prelude.{true, some, List, [], ◌∷◌, replicate}
use ratehub.Prelude.Int.{pos}
use ratehub.Types.{Record, blank_record}
use ratehub.SpscRing.{SpscRing}
use ratehub.Seqlock.{Seqlock}
use ratehub.Layout.{ShmControl, Snapshot, new_control}
use ratehub.Compute.{handle_record, publish_windows_from, take_snapshot}
use ratehub.Compute.Copies.{source_memcpy, window_memcpy}
use ratehub.Compute.Idle.{fresh, idle_windows}
use ratehub.Compute.Stages.{FastAt, WindowAt, Stages, start}

abbrev sample : Record
sample = record blank_record { source_id = 1; sequence = 9; pos_x = pos 1000; vel_x = pos 2000 }

abbrev waiting : SpscRing Record
waiting = record { slots = sample ∷ replicate 1023 blank_record; write = 1; read = 0 }

abbrev taken : SpscRing Record
taken = record waiting { read = 1 }

abbrev control : ShmControl
control = record new_control { ingest_done = 1 }

abbrev idle : List Seqlock
idle = idle_windows window_memcpy

abbrev first : Stages
first = start source_memcpy window_memcpy waiting control (fresh source_memcpy) idle

abbrev after_record : Stages
after_record = record first {
  fast_at = FastAt.draining true;
  ring = taken;
  fast = handle_record source_memcpy (fresh source_memcpy) sample;
  handled = sample ∷ [];
}

abbrev fast_ended : Stages
fast_ended = record after_record {
  fast_at = FastAt.ended;
  control = record control { fast_done = 1 };
}

abbrev copied : List Seqlock
copied = publish_windows_from source_memcpy window_memcpy 64 0 fast_ended.fast.latest idle

abbrev windows_ended : Stages
windows_ended = record fast_ended {
  window_at = WindowAt.ended;
  windows = copied;
  control = record control { fast_done = 1; window_done = 1 };
}

abbrev snap : Snapshot
snap = take_snapshot window_memcpy windows_ended.control copied

abbrev done : Stages
done = record windows_ended {
  snapshot = some snap;
  control = record control { fast_done = 1; window_done = 1; snapshot_done = 1 };
}
