-- ===== src/Tests/Consistency.antt =====
-- The theorem on consistent tables, at a shop with one order.
use hemsidor.Prelude.{refl, true, some, [], ◌∷◌, arith}
use hemsidor.Text.{codes}
use hemsidor.Studio.Monad.{World}
use hemsidor.Studio.Actions.{replay}
use hemsidor.Studio.Consistent.{Consistent}
use hemsidor.Studio.Consistent.History.{replay-Consistent}
use hemsidor.Tests.Shop.{shop, post_office}
use hemsidor.Tests.Memory.{memory, memory-IsOrm, memory-FreshKeys, notebook}

abbrev accepted : World memory notebook
accepted = shop (codes "godkand") (some 1)

accepted-Consistent : Consistent accepted.db
accepted-Consistent = record {
  order_keys = (refl, tt);
  site_keys = (refl, tt);
  delivery_keys = (refl, tt);
  live = (λ set. absurd (ground (arith, set)), tt);
  handed_over = (λ set. absurd (ground (arith, set)), tt);
  repaid = (λ set. absurd (ground (arith, set)), tt);
}

replay-Consistent_example :
    Consistent
      (replay memory notebook post_office true
        ((codes "publish_site", 7 ∷ []) ∷ (codes "record_refund", 7 ∷ 8 ∷ []) ∷ [])
        accepted).db
replay-Consistent_example =
    replay-Consistent memory memory-IsOrm memory-FreshKeys notebook post_office true
      ((codes "publish_site", 7 ∷ []) ∷ (codes "record_refund", 7 ∷ 8 ∷ []) ∷ []) accepted
      accepted-Consistent
