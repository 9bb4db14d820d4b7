-- ===== src/Studio/Consistent/History.antt =====
-- Any sequence of bulk actions leaves the tables consistent.
use hemsidor.Prelude.{ℕ, Bool, Option, List}
use hemsidor.Text.{Text}
use hemsidor.Studio.Backend.{Orm, IsOrm}
use hemsidor.Handover.Cell.{Cell}
use hemsidor.Studio.Monad.{World, Mail}
use hemsidor.Studio.Actions.{replay}
use hemsidor.Studio.Actions.Closure.{replay_respects}
use hemsidor.Studio.Consistent.{Consistent}
use hemsidor.Studio.Consistent.Inserts.{FreshKeys}
use hemsidor.Studio.Consistent.OneOrder.{Sound, advance-Sound, refund_one-Sound}
use hemsidor.Studio.Consistent.Publication.{publish_one-Sound}
use hemsidor.Studio.Consistent.Acceptance.{accept_one-Sound}

module _ (o : Orm) (laws : IsOrm o) (fresh : FreshKeys o) (c : Cell) (mail : Option Mail)
    (signing : Bool) where
  -- With a database that keeps to IsOrm and gives no key twice: however many bulk actions are run,
  -- on whatever orders, and wherever the database refuses a statement, the tables stay consistent
  -- if they were to begin with. No key stands twice among the orders, the sites or the deliveries;
  -- a site that has a moment of publication is that of an order with the status publicerad; a
  -- delivery with a transfer flag is that of an order with the status publicerad; and a delivery
  -- with a moment of refund is that of an order with the status avbruten.
  pub replay-Consistent :
      (history : List (Text × List ℕ)) (w : World o c)
      → Consistent (o.tables w.db)
      → Consistent (o.tables (replay o c mail signing history w).db)
  replay-Consistent history w =
      replay_respects {R = λ w v. Sound o c w → Sound o c v}
        (record { stays = λ w h. h; goes_on = λ u v w p q h. q (p h) })
        (record {
          accepts = λ id w. accept_one-Sound o laws fresh c id w;
          advances = λ id step w. advance-Sound o laws c mail id step w;
          publishes = λ id w. publish_one-Sound o laws c mail signing id w;
          refunds = λ id w. refund_one-Sound o laws c mail id w;
        })
        history w
