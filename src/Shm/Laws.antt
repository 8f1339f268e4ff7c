-- ===== src/Shm/Laws.antt =====
-- What the calls of src/shm_region.cpp leave behind, and that an attached mapping is the created one.
use ratehub.Prelude.{
  ℕ, ◌≡◌, ◌≢◌, refl, ap, ◌∙◌, inl, inr, true, false, Bool-cases, Option, none, some, List, [], ◌∷◌,
  ==_refl,
}
use ratehub.Prelude.Cuts.{drop_one_self}
use ratehub.Prelude.Text.{bytes_eq_refl}
use ratehub.Layout.{SourceState, WindowState}
use ratehub.Compute.{Memcpy}
use ratehub.Shm.{
  ShmStatus, ShmMapping, no_mapping, System, ShmWorld, shm_unlink, new_layout, has_header, map_fd,
  created, create_on, shm_create, attached, attach_on, shm_open_existing, unmap, close_fd, is_empty,
  shm_close,
}

-- Descriptors and mappings are as in `s`.
abbrev pub HoldsNoMore : System → System → Type 0
HoldsNoMore s s' = (s'.opened ≡ s.opened) × (s'.mapped ≡ s.mapped)

is_empty-ne : (name : List ℕ) → name ≢ [] → is_empty name ≡ false
is_empty-ne [] ne = absurd (ne refl)
is_empty-ne (c ∷ name) ne = refl

module _ (m : Memcpy SourceState) (w : Memcpy WindowState) where
  create_on-close :
      (world : ShmWorld) (name : List ℕ) (fd : Option ℕ) (s : System)
      → name ≢ []
      → s.names name ≡ none
      → let (status, mapping, s') = create_on m w world name fd no_mapping s in
        let (mapping', s'') = shm_close mapping s' in
        HoldsNoMore s s'' × (s''.names name ≡ none) × (mapping' ≡ no_mapping)
  unfolding create_on created map_fd shm_close unmap close_fd
  create_on-close world name none s ne unlinked = ((refl, refl), unlinked, refl)
  create_on-close world name (some fd) s ne unlinked = elim (Bool-cases world.truncates) [
    | inr small ↦ rw (small, bytes_eq_refl name) ((drop_one_self fd s.opened, refl), refl, refl)
    | inl sized ↦ elim (Bool-cases world.maps) [
      | inr unmapped ↦
          rw (sized, unmapped, bytes_eq_refl name) ((drop_one_self fd s.opened, refl), refl, refl)
      | inl mapped ↦
          rw (sized, mapped, is_empty-ne name ne, bytes_eq_refl name)
            ((drop_one_self fd s.opened, drop_one_self world.new_object s.mapped), refl, refl)
    ]
  ]

  -- Whatever the system calls return, `shm_create` into an empty mapping and `shm_close` after it leave
  -- no descriptor and no mapping behind, and no object under the name, if that is not empty.
  shm_close-create :
      (world : ShmWorld) (name : List ℕ) (s : System)
      → name ≢ []
      → let (status, mapping, s') = shm_create m w world name no_mapping s in
        let (mapping', s'') = shm_close mapping s' in
        HoldsNoMore s s'' × (s''.names name ≡ none) × (mapping' ≡ no_mapping)
  unfolding shm_create
  shm_close-create world name s ne =
      create_on-close world name world.opens (shm_unlink name s) ne (rw (bytes_eq_refl name) refl)

  attach_on-close :
      (world : ShmWorld) (name : List ℕ) (fd id : Option ℕ) (s : System)
      → let (status, mapping, s') = attach_on m w world name fd id no_mapping s in
        let (mapping', s'') = shm_close mapping s' in
        HoldsNoMore s s'' × (s''.names ≡ s.names) × (mapping' ≡ no_mapping)
  unfolding attach_on attached map_fd shm_close unmap close_fd
  attach_on-close world name none id s = ((refl, refl), refl, refl)
  attach_on-close world name (some fd) none s = ((refl, refl), refl, refl)
  attach_on-close world name (some fd) (some id) s = elim (Bool-cases world.maps) [
    | inr unmapped ↦ rw unmapped ((drop_one_self fd s.opened, refl), refl, refl)
    | inl mapped ↦ elim (Bool-cases (has_header m w (s.object id))) [
      | inl e ↦ rw (mapped, e) ((drop_one_self fd s.opened, drop_one_self id s.mapped), refl, refl)
      | inr e ↦ rw (mapped, e) ((drop_one_self fd s.opened, drop_one_self id s.mapped), refl, refl)
    ]
  ]

  -- Whatever the system calls return, `shm_open_existing` into an empty mapping and `shm_close` after
  -- it leave no descriptor and no mapping behind, and every name as it was: only the process that
  -- created the object unlinks it.
  shm_close-open_existing :
      (world : ShmWorld) (name : List ℕ) (s : System)
      → let (status, mapping, s') = shm_open_existing m w world name no_mapping s in
        let (mapping', s'') = shm_close mapping s' in
        HoldsNoMore s s'' × (s''.names ≡ s.names) × (mapping' ≡ no_mapping)
  unfolding shm_open_existing
  shm_close-open_existing world name s = attach_on-close world name world.opens (s.names name) s

  create_on-found :
      (world : ShmWorld) (name : List ℕ) (fd : Option ℕ) (s : System)
      → (create_on m w world name fd no_mapping s).0 ≡ ShmStatus.ok
      → let (status, mapping, s') = create_on m w world name fd no_mapping s in
        (s'.names name ≡ some world.new_object) × (s'.object world.new_object ≡ new_layout m w)
  unfolding create_on created map_fd
  create_on-found world name none s done = absurd (cc)
  create_on-found world name (some fd) s done = elim (Bool-cases world.truncates) [
    | inr small ↦ let no : ShmStatus.io_error ≡ ShmStatus.ok = rw small at done in absurd (cc)
    | inl sized ↦ elim (Bool-cases world.maps) [
      | inr unmapped ↦
          let no : ShmStatus.io_error ≡ ShmStatus.ok = rw (sized, unmapped) at done in absurd (cc)
      | inl mapped ↦ rw (sized, mapped, bytes_eq_refl name, ==_refl world.new_object) (refl, refl)
    ]
  ]

  attach_on-found :
      (world : ShmWorld) (name : List ℕ) (fd id : ℕ) (s : System)
      → world.maps ≡ true
      → s.object id ≡ new_layout m w
      → let (status, mapping, s') = attach_on m w world name (some fd) (some id) no_mapping s in
        (status ≡ ShmStatus.ok)
        × (mapping ≡ record { layout = some id; fd = some fd; owner = false; name = name })
        × (s'.object ≡ s.object)
  unfolding attach_on attached map_fd
  attach_on-found world name fd id s mapped built = rw (mapped, built) (refl, refl, refl)

  -- After a successful `shm_create` a process that opens the name, and for which the system calls
  -- succeed, attaches to that object, which holds a new layout, without owning the name.
  pub shm_open_existing-create :
      (world world' : ShmWorld) (name : List ℕ) (fd : ℕ) (s : System)
      → (shm_create m w world name no_mapping s).0 ≡ ShmStatus.ok
      → world'.opens ≡ some fd
      → world'.maps ≡ true
      → let (status, mapping, s') = shm_create m w world name no_mapping s in
        let (status', mapping', s'') = shm_open_existing m w world' name no_mapping s' in
        (status' ≡ ShmStatus.ok)
        × (mapping'
            ≡ record { layout = some world.new_object; fd = some fd; owner = false; name = name })
        × (s''.object world.new_object ≡ new_layout m w)
  unfolding shm_create shm_open_existing attach_on map_fd
  shm_open_existing-create world world' name fd s done opens maps =
      let s' = (create_on m w world name world.opens no_mapping (shm_unlink name s)).2 in
      let (found, built) = create_on-found world name world.opens (shm_unlink name s) done in
      let (ok, mapping, kept) = attach_on-found world' name fd world.new_object s' maps built in
      rw (opens, found) (ok, mapping, ap (λ f. f world.new_object) kept ∙ built)

-- What a process leaves of an attachment that it closes again if it succeeded.
unfoldable pub after_use : ShmStatus × ShmMapping × System → System
after_use (ShmStatus.ok, mapping, s) = (shm_close mapping s).1
after_use (ShmStatus.io_error, mapping, s) = s
after_use (ShmStatus.schema_mismatch, mapping, s) = s

module _ (m : Memcpy SourceState) (w : Memcpy WindowState) where
  attach_on-after_use :
      (world : ShmWorld) (name : List ℕ) (fd id : Option ℕ) (s : System)
      → let s' = after_use (attach_on m w world name fd id no_mapping s) in
        HoldsNoMore s s' × (s'.names ≡ s.names)
  unfolding after_use attach_on attached map_fd shm_close unmap close_fd
  attach_on-after_use world name none id s = ((refl, refl), refl)
  attach_on-after_use world name (some fd) none s = ((refl, refl), refl)
  attach_on-after_use world name (some fd) (some id) s = elim (Bool-cases world.maps) [
    | inr unmapped ↦ rw unmapped ((drop_one_self fd s.opened, refl), refl)
    | inl mapped ↦ elim (Bool-cases (has_header m w (s.object id))) [
      | inl e ↦ rw (mapped, e) ((drop_one_self fd s.opened, drop_one_self id s.mapped), refl)
      | inr e ↦ rw (mapped, e) ((drop_one_self fd s.opened, drop_one_self id s.mapped), refl)
    ]
  ]

  pub shm_open_existing-after_use :
      (world : ShmWorld) (name : List ℕ) (s : System)
      → let s' = after_use (shm_open_existing m w world name no_mapping s) in
        HoldsNoMore s s' × (s'.names ≡ s.names)
  unfolding shm_open_existing
  shm_open_existing-after_use world name s =
      attach_on-after_use world name world.opens (s.names name) s
