-- ===== src/Publish/Sent.antt =====
-- What can stand in the triple buffer and in the variable of the loop of src/publish.cpp over all the
-- attempts of the compute process.
use ratehub.Prelude.{◌≡◌, ◌≢◌, ◌⊎◌, inl, inr, refl, subst, true, Option, none, some, List, ◌∷◌}
use mathlib.Core.List.{Memᴰ}
use ratehub.TripleBuffer.Register.{Register, offer, take}
use ratehub.Layout.{Snapshot}
use ratehub.Publish.{have}
use ratehub.Publish.Waiting.{PublishAt}

-- Every snapshot on the way is one of `published`.
pub record Sent (at : PublishAt) (r : Register Snapshot) (last : Option Snapshot)
    (published : List Snapshot) : Type 0 where
  pub on_offer : (x : Snapshot) → r.latest ≡ some x → Memᴰ x published
  pub in_front : at ≡ PublishAt.reading → Memᴰ r.front published
  pub kept : (x : Snapshot) → last ≡ some x → Memᴰ x published

-- A snapshot is on offer, or taken and not yet read, or kept.
abbrev pub Held : PublishAt → Register Snapshot → Option Snapshot → Type 0
Held at r last = (r.latest ≢ none) ⊎ ((at ≡ PublishAt.reading) ⊎ (have last ≡ true))

pub Held-moves :
    {at : PublishAt} (at' : PublishAt) (r : Register Snapshot) (last : Option Snapshot)
    → at ≢ PublishAt.reading
    → Held at r last
    → Held at' r last
Held-moves at' r last ne (inl on) = inl on
Held-moves at' r last ne (inr (inl reads)) = absurd (ne reads)
Held-moves at' r last ne (inr (inr h)) = inr (inr h)

module _ {at : PublishAt} {r : Register Snapshot} {last : Option Snapshot}
    {published : List Snapshot} where
  pub Sent-moves :
      (at' : PublishAt)
      → at' ≢ PublishAt.reading
      → Sent at r last published
      → Sent at' r last published
  Sent-moves at' ne s = record {
    on_offer = s.on_offer;
    in_front = λ reads. absurd (ne reads);
    kept = s.kept;
  }

  pub Sent-publishes :
      (x : Snapshot) → Sent at r last published → Sent at (offer r x) last (x ∷ published)
  unfolding offer
  Sent-publishes x s = record {
    on_offer = λ y same. Memᴰ.head (cc same);
    in_front = λ reads. Memᴰ.tail (s.in_front reads);
    kept = λ y same. Memᴰ.tail (s.kept y same);
  }

  took :
      (o : Option Snapshot)
      → r.latest ≡ o
      → o ≢ none
      → Sent at r last published
      → Sent PublishAt.reading (take r).1 last published
  unfolding take
  took none e ne s = absurd (ne refl)
  took (some x) e ne s =
      rw e
        (record { on_offer = λ y same. absurd cc; in_front = λ q. s.on_offer x e; kept = s.kept })

  pub Sent-takes :
      r.latest ≢ none → Sent at r last published → Sent PublishAt.reading (take r).1 last published
  Sent-takes ne s = took r.latest refl ne s

  pub Sent-reads :
      (x : Snapshot)
      → x ≡ r.front
      → at ≡ PublishAt.reading
      → Sent at r last published
      → Sent PublishAt.beating r (some x) published
  Sent-reads x held reads s = record {
    on_offer = s.on_offer;
    in_front = λ q. absurd cc;
    kept = λ y same. subst (λ z. Memᴰ z published) (cc (held, same)) (s.in_front reads);
  }
