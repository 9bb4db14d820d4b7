-- ===== src/Studio/Grows/History.antt =====
-- A bulk action, and any sequence of bulk actions, lets the tables grow.
use hemsidor.Prelude.{
  ℕ, ◌+◌, Bool, ◌≡◌, sym, Option, List, [], ◌∷◌, ok, err, length, arith, length-append, Result,
}
use mathlib.Core.Path.{subst}
use hemsidor.Text.{Text}
use hemsidor.Studio.Backend.{Orm, IsOrm}
use hemsidor.Handover.Cell.{Cell}
use hemsidor.Studio.Monad.{World, Action, Mail, Refusal}
use hemsidor.Studio.Actions.{BulkActionResult, no_rows, run_from, run_bulk, tally, replay}
use hemsidor.Studio.Actions.Closure.{Preorder, Respects, replay_respects}
use hemsidor.Studio.Grows.{Grows, Unique, order_ids}
use hemsidor.Studio.Grows.Rows.{Grows-refl, Grows-trans}
use hemsidor.Studio.Grows.OneOrder.{
  advance-Grown, accept_one-Grown, publish_one-Grown, refund_one-Grown,
}

tally-counts :
    (id : ℕ) (answer : Result Refusal (Unit {0})) (result : BulkActionResult)
    → (tally id answer result).succeeded + length (tally id answer result).failed
      ≡ result.succeeded + length result.failed + 1
unfolding tally
tally-counts id (ok a) result = omega arith
tally-counts id (err why) result = omega (arith, length-append result.failed ((id, why) ∷ []))

module _ {o : Orm} {c : Cell} where
  run_from-counts :
      (one : ℕ → Action o c (Unit {0})) (ids : List ℕ) (result : BulkActionResult) (w : World o c)
      → (run_from one ids result w).0.succeeded + length (run_from one ids result w).0.failed
        ≡ result.succeeded + length result.failed + length ids
  unfolding run_from
  run_from-counts one [] result w = omega arith
  run_from-counts one (id ∷ ids) result w = omega (
    arith,
    tally-counts id (one id w).0 result,
    run_from-counts one ids (tally id (one id w).0 result) (one id w).1,
  )

  -- Every selected order is counted as done or listed with the reason of its refusal: the two
  -- numbers add up to the length of the selection, whatever the action on one order does.
  run_bulk-counts :
      (one : ℕ → Action o c (Unit {0})) (ids : List ℕ) (w : World o c)
      → (run_bulk one ids w).0.succeeded + length (run_bulk one ids w).0.failed ≡ length ids
  unfolding run_bulk
  run_bulk-counts one ids w = omega (arith, run_from-counts one ids no_rows w)

module _ (o : Orm) (laws : IsOrm o) (c : Cell) where
  -- The tables grow, where the orders' keys are unique.
  abbrev GrowsFrom : World o c → World o c → Type 0
  GrowsFrom w v = Unique (order_ids (o.tables w.db)) → Grows (o.tables w.db) (o.tables v.db)

  GrowsFrom-Preorder : Preorder o c GrowsFrom
  GrowsFrom-Preorder = record {
    stays = λ w unique. Grows-refl (o.tables w.db);
    goes_on = λ u v w p q unique.
        let first = p unique in
        Grows-trans (o.tables u.db) (o.tables v.db) (o.tables w.db) first
          (q (subst Unique (sym first.ids) unique));
  }

  one_order-Grows : (mail : Option Mail) (signing : Bool) → Respects o c mail signing GrowsFrom
  one_order-Grows mail signing = record {
    accepts = λ id w unique. accept_one-Grown o laws c w unique id;
    advances = λ id step w unique. advance-Grown o laws c w unique mail id step;
    publishes = λ id w unique. publish_one-Grown o laws c w unique mail signing id;
    refunds = λ id w unique. refund_one-Grown o laws c w unique mail id;
  }

module _ (o : Orm) (laws : IsOrm o) (c : Cell) (mail : Option Mail) (signing : Bool) where
  -- However many bulk actions are run, on whatever orders, and wherever the database refuses a
  -- statement: where the database keeps to IsOrm and the orders' keys are unique to begin with, no
  -- row is removed, renumbered or moved, though rows may be added; what the customer typed stays
  -- as it was; an order's status has moved along the arrows of the status diagram only; a customer
  -- that was linked stays linked, a moment that was stamped keeps its value and a transfer flag
  -- that was set stays set.
  pub replay-Grows :
      (history : List (Text × List ℕ)) (w : World o c)
      → Unique (order_ids (o.tables w.db))
      → Grows (o.tables w.db) (o.tables (replay o c mail signing history w).db)
  replay-Grows history w unique =
      replay_respects (GrowsFrom-Preorder o laws c) (one_order-Grows o laws c mail signing) history
        w unique
