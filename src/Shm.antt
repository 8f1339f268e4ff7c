-- ===== src/Shm.antt =====
-- src/shm_region.cpp and include/ratehub/shm_region.hpp: creating, attaching and detaching the mapping.
-- `System` is the part of the operating system that the calls change; a shared object is a number.
pub mod Laws
mod Tests
use ratehub.Prelude.{
  ℕ, ◌^◌, Bool, true, false, not, ◌&&◌, ◌||◌, Option, none, some, List, [], ◌∷◌, replicate, ◌==◌,
  if◌then◌else◌,
}
use ratehub.Prelude.Cuts.{drop_one}
use ratehub.Prelude.Text.{bytes_eq}
use ratehub.Types.{Record, blank_record, max_sources, schema_version}
use ratehub.SpscRing.{empty_ring}
use ratehub.Seqlock.{new_seqlock}
use ratehub.TripleBuffer.{new_buffer}
use ratehub.Layout.{
  Layout, SourceState, WindowState, Snapshot, blank_window, shm_magic, new_control, new_supervisor,
}
use ratehub.Compute.{Memcpy}

pub data ShmStatus : Type 0 where
  ok io_error schema_mismatch : ShmStatus

-- `layout` is the object that the pointer reaches, `none` for a null pointer; `fd` is `none` for -1.
pub record ShmMapping : Type 0 where
  pub layout : Option ℕ
  pub fd : Option ℕ
  pub owner : Bool
  pub name : List ℕ

abbrev pub no_mapping : ShmMapping
no_mapping = record { layout = none; fd = none; owner = false; name = [] }

-- The open descriptors, the objects mapped, one entry for each mapping, the object behind each name,
-- and what the objects hold.
pub record System : Type 0 where
  pub opened : List ℕ
  pub mapped : List ℕ
  pub names : List ℕ → Option ℕ
  pub object : ℕ → Layout

-- What the calls return: the descriptor, the number of a new object, and whether the size can be set
-- and the object mapped.
pub record ShmWorld : Type 0 where
  pub opens : Option ℕ
  pub new_object : ℕ
  pub truncates : Bool
  pub maps : Bool

abbrev pub shm_unlink : List ℕ → System → System
shm_unlink name s = record s { names = λ n. if bytes_eq n name then none else s.names n }

module _ (m : Memcpy SourceState) (w : Memcpy WindowState) where
  -- `new (layout) Layout`
  abbrev pub new_layout : Layout
  new_layout = record {
    control = new_control;
    supervisor = new_supervisor;
    ring = empty_ring 10 blank_record;
    latest = replicate max_sources (new_seqlock m.size);
    window = replicate max_sources (new_seqlock w.size);
    snapshots = new_buffer (record { generation = 0; rows = replicate max_sources blank_window });
  }

  abbrev pub has_header : Layout → Bool
  has_header layout = layout.control.magic == shm_magic && layout.control.schema == schema_version

  -- `id` is the object behind `fd`.
  unfoldable pub map_fd :
      ShmWorld → ℕ → ℕ → Bool → ShmMapping → System → ShmStatus × ShmMapping × System
  map_fd world fd id construct out s =
      let mapped = record s { mapped = id ∷ s.mapped } in
      let out' = record out { layout = some id; fd = some fd } in
      if construct && not world.truncates
      then (ShmStatus.io_error, out, s)
      else if not world.maps
      then (ShmStatus.io_error, out, s)
      else if construct
      then (
        ShmStatus.ok,
        out',
        record mapped { object = λ n. if n == id then new_layout else s.object n },
      )
      else if not (has_header (s.object id))
      then (ShmStatus.schema_mismatch, out, record mapped { mapped = drop_one id mapped.mapped })
      else (ShmStatus.ok, out', mapped)

  unfoldable pub created :
      List ℕ → ℕ → ShmStatus × ShmMapping × System → ShmStatus × ShmMapping × System
  created name fd (ShmStatus.ok, out, s) =
      (ShmStatus.ok, record out { owner = true; name = name }, s)
  created name fd (ShmStatus.io_error, out, s) =
      (ShmStatus.io_error, out, shm_unlink name (record s { opened = drop_one fd s.opened }))
  created name fd (ShmStatus.schema_mismatch, out, s) =
      (ShmStatus.schema_mismatch, out, shm_unlink name (record s { opened = drop_one fd s.opened }))

  unfoldable pub create_on :
      ShmWorld → List ℕ → Option ℕ → ShmMapping → System → ShmStatus × ShmMapping × System
  create_on world name none out s = (ShmStatus.io_error, out, s)
  create_on world name (some fd) out s =
      let linked = record s {
        opened = fd ∷ s.opened;
        names = λ n. if bytes_eq n name then some world.new_object else s.names n;
      } in
      created name fd (map_fd world fd world.new_object true out linked)

  unfoldable pub shm_create :
      ShmWorld → List ℕ → ShmMapping → System → ShmStatus × ShmMapping × System
  shm_create world name out s = create_on world name world.opens out (shm_unlink name s)

  unfoldable pub attached :
      List ℕ → ℕ → ShmStatus × ShmMapping × System → ShmStatus × ShmMapping × System
  attached name fd (ShmStatus.ok, out, s) =
      (ShmStatus.ok, record out { owner = false; name = name }, s)
  attached name fd (ShmStatus.io_error, out, s) =
      (ShmStatus.io_error, out, record s { opened = drop_one fd s.opened })
  attached name fd (ShmStatus.schema_mismatch, out, s) =
      (ShmStatus.schema_mismatch, out, record s { opened = drop_one fd s.opened })

  -- Without an object of that name `shm_open` returns no descriptor.
  unfoldable pub attach_on :
      ShmWorld
      → List ℕ
      → Option ℕ
      → Option ℕ
      → ShmMapping
      → System
      → ShmStatus × ShmMapping × System
  attach_on world name none id out s = (ShmStatus.io_error, out, s)
  attach_on world name (some fd) none out s = (ShmStatus.io_error, out, s)
  attach_on world name (some fd) (some id) out s =
      attached name fd (map_fd world fd id false out (record s { opened = fd ∷ s.opened }))

  unfoldable pub shm_open_existing :
      ShmWorld → List ℕ → ShmMapping → System → ShmStatus × ShmMapping × System
  shm_open_existing world name out s = attach_on world name world.opens (s.names name) out s

unfoldable pub unmap : Option ℕ → System → System
unmap none s = s
unmap (some id) s = record s { mapped = drop_one id s.mapped }

unfoldable pub close_fd : Option ℕ → System → System
close_fd none s = s
close_fd (some fd) s = record s { opened = drop_one fd s.opened }

abbrev pub is_empty : List ℕ → Bool
is_empty [] = true
is_empty (c ∷ name) = false

unfoldable pub shm_close : ShmMapping → System → ShmMapping × System
shm_close mapping s =
    let closed = close_fd mapping.fd (unmap mapping.layout s) in
    (
      record { layout = none; fd = none; owner = false; name = [] },
      if mapping.owner && not (is_empty mapping.name)
          then shm_unlink mapping.name closed
          else closed,
    )
