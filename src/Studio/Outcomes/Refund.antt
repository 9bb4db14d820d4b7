-- ===== src/Studio/Outcomes/Refund.antt =====
-- What a recorded refund has found and done.
use hemsidor.Prelude.{
  ℕ, true, ◌≡◌, refl, ap, ◌∙◌, Option, none, some, ◌++◌, find, ◌==◌, ok, err, arith, to_option,
}
use hemsidor.Text.{Text}
use hemsidor.Core.Status.{OrderStatus, from_slug, status_eq, avbruten}
use hemsidor.Core.Package
use hemsidor.Core.Package.{Package}
use hemsidor.Notify.Message.{refund_issued}
use hemsidor.Studio.Models.{Order, Site, Delivery}
use hemsidor.Studio.Tables.{is_id, perform, stamp_refunded}
use hemsidor.Studio.Backend.{Orm, IsOrm}
use hemsidor.Handover.Cell.{Cell}
use hemsidor.Studio.Monad.{World, Mail, Refusal, handed}
use hemsidor.Studio.Monad.Ends.{
  Ends, Ends-require, Ends-write, Ends-guard, Ends-notify, Ends-ok, Ends-err,
}
use hemsidor.Studio.Monad.Calls.{Ends-load_order, Ends-delivery_for}
use hemsidor.Studio.Publication.{non_blank}
use hemsidor.Studio.Cancellation.{refund_one}
use hemsidor.Studio.Outcomes.{none_of_not, delivered-outbox, delivered-db, Quiet}

pub status_eq_sound : (s n : OrderStatus) → status_eq s n ≡ true → s ≡ n
status_eq_sound s n h = ground arith

module _ (o : Orm) (laws : IsOrm o) (c : Cell) where
  pub record Refunded (mail : Option Mail) (id : ℕ) (w v : World o c) : Type 0 where
    pub order : Order
    pub chosen : Package
    pub site : Site
    pub delivery : Delivery
    pub reason : Text
    pub found : find (λ row. row.id == id) (o.tables w.db).orders ≡ some order
    pub called_off : from_slug order.status ≡ some avbruten
    pub parsed : to_option (Package.parse order.«package») ≡ some chosen
    pub of_order : find (λ s. is_id s.order_id id) (o.tables w.db).sites ≡ some site
    pub of_site : find (λ d. is_id d.site_id site.id) (o.tables w.db).deliveries ≡ some delivery
    pub given : non_blank delivery.refund_reason ≡ some reason
    pub first : delivery.refunded_at ≡ none
    pub recorded : o.tables v.db ≡ perform (o.now w.db) (stamp_refunded delivery.id) (o.tables w.db)
    pub told :
        v.outbox
        ≡ w.outbox
          ++ handed mail
              (λ m. refund_issued order.company chosen reason order.email m.from m.studio)

  refund_one-Ends :
      (mail : Option Mail) (id : ℕ) (w : World o c)
      → Ends (Quiet w) (λ _. Refunded mail id w) (refund_one o c mail id) w
  unfolding refund_one
  refund_one-Ends mail id w = Ends-load_order laws id _ w refl λ order found.
      Ends-require _ _ _ w refl λ current was. Ends-guard _ _ _ w refl λ called_off.
        Ends-require _ _ _ w refl λ chosen parsed.
          Ends-delivery_for laws id _ w refl λ site delivery of_order of_site.
            Ends-require _ _ _ w refl λ reason given. Ends-guard _ _ _ w refl λ first.
              Ends-write _ _ _ w (λ _ _. refl)
                λ answer saved. Ends-notify mail _ _ (record {
                  order = order;
                  chosen = chosen;
                  site = site;
                  delivery = delivery;
                  reason = reason;
                  found = found;
                  called_off = was ∙ ap some (status_eq_sound current avbruten called_off);
                  parsed = parsed;
                  of_order = of_order;
                  of_site = of_site;
                  given = given;
                  first = none_of_not delivery.refunded_at first;
                  recorded = ap o.tables (delivered-db mail _ _) ∙ laws.execute_ok _ w.db saved;
                  told = delivered-outbox mail _ _;
                })

  -- With a database that keeps to IsOrm, a refund that is recorded: the order was found called
  -- off, with a readable package, and its delivery has a reason that is not blank and no stamp;
  -- the tables differ by that one stamp, and the one message handed to the mailer, where there is
  -- one, is the notice with that reason.
  pub refund_one-Refunded :
      (mail : Option Mail) (id : ℕ) (w : World o c)
      → (refund_one o c mail id w).0 ≡ ok tt
      → Refunded mail id w (refund_one o c mail id w).1
  refund_one-Refunded mail id w h = Ends-ok _ w tt (refund_one-Ends mail id w) h

  -- With a database that keeps to IsOrm, a refund that is refused, for whatever reason, hands no
  -- message to the mailer.
  refund_one-Quiet :
      (mail : Option Mail) (id : ℕ) (w : World o c) (why : Refusal)
      → (refund_one o c mail id w).0 ≡ err why
      → Quiet w (refund_one o c mail id w).1
  refund_one-Quiet mail id w why h = Ends-err _ w why (refund_one-Ends mail id w) h
