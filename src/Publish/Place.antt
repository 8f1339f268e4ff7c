-- ===== src/Publish/Place.antt =====
-- The ways of the snapshot from the first attempt of the compute process to the variable of the loop of
-- src/publish.cpp, while there is no second attempt.
use ratehub.Prelude.{◌≡◌, ◌≢◌, refl, sym, ◌∙◌, ap, true, Option, none, some}
use ratehub.TripleBuffer.Register.{Register, offer, take}
use ratehub.Layout.{Snapshot}
use ratehub.Publish.{have}
use ratehub.Publish.Waiting.{ComputeAt, PublishAt}

-- The snapshot that the compute process has published.
abbrev pub out : ComputeAt → Option Snapshot
out ComputeAt.working = none
out (ComputeAt.published x) = some x
out (ComputeAt.joined x) = some x

-- Where the snapshot of the compute process is, by what the buffer offers, the value of the reader's
-- slot, and the loop's variable.
pub data Place (c : ComputeAt) (at : PublishAt) (r : Register Snapshot) (last : Option Snapshot)
    : Type 0 where
  nowhere :
      out c ≡ none → at ≢ PublishAt.reading → r.latest ≡ none → last ≡ none → Place c at r last
  offered :
      (x : Snapshot)
      → out c ≡ some x
      → at ≢ PublishAt.reading
      → r.latest ≡ some x
      → last ≡ none
      → Place c at r last
  taken :
      (x : Snapshot)
      → out c ≡ some x
      → at ≡ PublishAt.reading
      → r.latest ≡ none
      → r.front ≡ x
      → Place c at r last
  kept :
      (x : Snapshot)
      → out c ≡ some x
      → at ≢ PublishAt.reading
      → r.latest ≡ none
      → last ≡ some x
      → Place c at r last

-- A move of the loop that neither takes nor reads.
pub Place-moves :
    {c : ComputeAt} {at : PublishAt} {r : Register Snapshot} {last : Option Snapshot}
    (at' : PublishAt)
    → at ≢ PublishAt.reading
    → at' ≢ PublishAt.reading
    → Place c at r last
    → Place c at' r last
Place-moves at' ne ne' (Place.nowhere w e l k) = Place.nowhere w ne' l k
Place-moves at' ne ne' (Place.offered x o e l k) = Place.offered x o ne' l k
Place-moves at' ne ne' (Place.taken x o e l k) = absurd (ne e)
Place-moves at' ne ne' (Place.kept x o e l k) = Place.kept x o ne' l k

pub Place-publishes :
    {at : PublishAt} {r : Register Snapshot} {last : Option Snapshot} {c : ComputeAt} (x : Snapshot)
    → c ≡ ComputeAt.working
    → Place c at r last
    → Place (ComputeAt.published x) at (offer r x) last
unfolding offer
Place-publishes x w (Place.nowhere w' e l k) = Place.offered x refl e refl k
Place-publishes x w (Place.offered y o e l k) = absurd (cc (ap out w, o))
Place-publishes x w (Place.taken y o e l k) = absurd (cc (ap out w, o))
Place-publishes x w (Place.kept y o e l k) = absurd (cc (ap out w, o))

pub Place-joins :
    {at : PublishAt} {r : Register Snapshot} {last : Option Snapshot} {c : ComputeAt} (x : Snapshot)
    → c ≡ ComputeAt.published x
    → Place c at r last
    → Place (ComputeAt.joined x) at r last
Place-joins x w (Place.nowhere w' e l k) = absurd (cc (ap out w, w'))
Place-joins x w (Place.offered y o e l k) = Place.offered y (sym (ap out w) ∙ o) e l k
Place-joins x w (Place.taken y o e l k) = Place.taken y (sym (ap out w) ∙ o) e l k
Place-joins x w (Place.kept y o e l k) = Place.kept y (sym (ap out w) ∙ o) e l k

pub Place-takes :
    {c : ComputeAt} {last : Option Snapshot} (r : Register Snapshot)
    → r.latest ≢ none
    → Place c PublishAt.swapping r last
    → Place c PublishAt.reading (take r).1 last
unfolding take
Place-takes r ne (Place.nowhere w e l k) = absurd (ne l)
Place-takes r ne (Place.offered x o e l k) = Place.taken x o refl (rw l refl) (rw l refl)
Place-takes r ne (Place.taken x o e l k) = absurd (ne l)
Place-takes r ne (Place.kept x o e l k) = absurd (ne l)

pub Place-reads :
    {c : ComputeAt} {r : Register Snapshot} {last : Option Snapshot} (x : Snapshot)
    → x ≡ r.front
    → Place c PublishAt.reading r last
    → Place c PublishAt.beating r (some x)
Place-reads x held (Place.nowhere w e l k) = absurd (e refl)
Place-reads x held (Place.offered y o e l k) = absurd (e refl)
Place-reads x held (Place.taken y o e l k) = Place.kept y o (λ e. absurd cc) l cc
Place-reads x held (Place.kept y o e l k) = absurd (e refl)

-- A loop with a snapshot has that of the compute process.
pub kept_out :
    {c : ComputeAt} {at : PublishAt} {r : Register Snapshot} {last : Option Snapshot}
    → have last ≡ true
    → at ≢ PublishAt.reading
    → Place c at r last
    → (x : Snapshot) × (out c ≡ some x) × (last ≡ some x)
kept_out h ne (Place.nowhere w e l k) = absurd (cc (h, ap have k))
kept_out h ne (Place.offered y o e l k) = absurd (cc (h, ap have k))
kept_out h ne (Place.taken y o e l k) = absurd (ne e)
kept_out h ne (Place.kept y o e l k) = (y, o, k)
