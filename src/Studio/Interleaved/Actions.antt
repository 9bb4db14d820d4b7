-- ===== src/Studio/Interleaved/Actions.antt =====
-- What every statement keeps, every history of bulk actions keeps.
use hemsidor.Prelude.{ℕ, Bool, Option, List}
use hemsidor.Text.{Text}
use hemsidor.Core.Status.{publicerad}
use hemsidor.Studio.Backend.{Orm}
use hemsidor.Handover.Cell.{Cell}
use hemsidor.Studio.Monad.{World, Mail}
use hemsidor.Studio.Monad.Keeps.{
  Guarantees, Keeps, Keeps-require, Keeps-guard, Keeps-notify, Keeps-execute, Keeps-set_status,
  Keeps-attempt, Keeps-create_customer, Keeps-create_site, Keeps-create_delivery, Keeps-bind,
  Keeps-load_order, Keeps-stamp, Keeps-moment, Keeps-site_for, Keeps-delivery_for,
  Keeps-domain_name, Keeps-sign_claims,
}
use hemsidor.Studio.Workflow.{Step, advance}
use hemsidor.Studio.Accept.{accept_one}
use hemsidor.Studio.Publication.{publish_one}
use hemsidor.Studio.Cancellation.{refund_one}
use hemsidor.Studio.Actions.Closure.{Preorder, replay_respects}
use hemsidor.Studio.Actions.{replay}

module _ {o : Orm} {c : Cell} {R : o.Db → o.Db → Type 0} (g : Guarantees o R) where
  Keeps-advance : (mail : Option Mail) (id : ℕ) (step : Step) → Keeps o R (advance o c mail id step)
  unfolding advance
  Keeps-advance mail id step = Keeps-bind g _ _ (Keeps-load_order g id) λ order.
      Keeps-bind g _ _ (Keeps-require g _ _) λ current. Keeps-bind g _ _ (Keeps-guard g _ _) λ may.
        Keeps-bind g _ _ (Keeps-require g _ _) λ chosen.
          Keeps-bind g _ _ (Keeps-set_status g step.to _ _)
            λ saved. Keeps-bind g _ _ (Keeps-stamp g _ _) λ stamped. Keeps-notify g _ _

  Keeps-accept_one : (id : ℕ) → Keeps o R (accept_one o c id)
  unfolding accept_one
  Keeps-accept_one id = Keeps-bind g _ _ (Keeps-load_order g id) λ order.
      Keeps-bind g _ _ (Keeps-guard g _ _) λ free.
        Keeps-bind g _ _ (Keeps-guard g _ _) λ still_open. Keeps-bind g _ _ (Keeps-moment g) λ now.
          Keeps-bind g _ _ (Keeps-create_customer g _ _) λ customer_id.
            Keeps-bind g _ _ (Keeps-create_site g _ _) λ site_id.
              Keeps-bind g _ _ (Keeps-create_delivery g _ _) λ delivery_id. Keeps-execute g _ _ tt

  Keeps-publish_one :
      (mail : Option Mail) (signing : Bool) (id : ℕ) → Keeps o R (publish_one o c mail signing id)
  unfolding publish_one
  Keeps-publish_one mail signing id = Keeps-bind g _ _ (Keeps-load_order g id) λ order.
      Keeps-bind g _ _ (Keeps-require g _ _) λ current. Keeps-bind g _ _ (Keeps-guard g _ _) λ may.
        Keeps-bind g _ _ (Keeps-site_for g id) λ site.
          Keeps-bind g _ _ (Keeps-require g _ _) λ live_url.
            Keeps-bind g _ _ (Keeps-require g _ _) λ customer_id.
              Keeps-bind g _ _ (Keeps-domain_name g _) λ name.
                Keeps-bind g _ _ (Keeps-set_status g publicerad _ _) λ saved.
                  Keeps-bind g _ _ (Keeps-attempt g _ tt) λ published.
                    Keeps-bind g _ _ (Keeps-sign_claims g signing _ _) λ signed.
                      Keeps-bind g _ _ (Keeps-attempt g _ tt) λ transferred. Keeps-notify g _ _

  Keeps-refund_one : (mail : Option Mail) (id : ℕ) → Keeps o R (refund_one o c mail id)
  unfolding refund_one
  Keeps-refund_one mail id = Keeps-bind g _ _ (Keeps-load_order g id) λ order.
      Keeps-bind g _ _ (Keeps-require g _ _) λ status. Keeps-bind g _ _ (Keeps-guard g _ _) λ off.
        Keeps-bind g _ _ (Keeps-require g _ _) λ chosen.
          Keeps-bind g _ _ (Keeps-delivery_for g id) λ delivery.
            Keeps-bind g _ _ (Keeps-require g _ _) λ reason.
              Keeps-bind g _ _ (Keeps-guard g _ _)
                λ first. Keeps-bind g _ _ (Keeps-execute g _ _ tt) λ saved. Keeps-notify g _ _

module _ {o : Orm} (c : Cell) {R : o.Db → o.Db → Type 0} (g : Guarantees o R) where
  later-Preorder : Preorder o c (λ w v. R w.db v.db)
  later-Preorder = record {
    stays = λ w. g.stays w.db;
    goes_on = λ u v w p q. g.goes_on u.db v.db w.db p q;
  }

  -- What every statement of the database keeps, a history of bulk actions keeps, wherever the
  -- database refuses a statement and whatever the reads answer.
  pub replay-Keeps :
      (mail : Option Mail) (signing : Bool) (history : List (Text × List ℕ)) (w : World o c)
      → R w.db (replay o c mail signing history w).db
  replay-Keeps mail signing = replay_respects later-Preorder (record {
    accepts = λ id. (Keeps-accept_one g id).at;
    advances = λ id step. (Keeps-advance g mail id step).at;
    publishes = λ id. (Keeps-publish_one g mail signing id).at;
    refunds = λ id. (Keeps-refund_one g mail id).at;
  })
