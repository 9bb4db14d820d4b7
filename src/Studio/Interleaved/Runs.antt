-- ===== src/Studio/Interleaved/Runs.antt =====
-- The whole run of an action whose reads and writes succeed, over any database whatever.
use hemsidor.Prelude.{
  ℕ, true, ◌≡◌, refl, sym, ap, Option, none, some, List, find, ok, ◌++◌, to_option,
}
use mathlib.Core.List.{append-nil}
use hemsidor.Text.{Text}
use hemsidor.Core.Status
use hemsidor.Core.Status.{OrderStatus, from_slug, can_transition_to, status_eq, avbruten}
use hemsidor.Core.Package
use hemsidor.Core.Package.{Package}
use hemsidor.Notify.Message.{Message, refund_issued}
use hemsidor.Studio.Models.{Order, Site, Delivery}
use hemsidor.Studio.Tables.{Column, is_id, set_status, stamp_refunded}
use hemsidor.Studio.Backend.{Orm}
use hemsidor.Handover.Cell.{Cell}
use hemsidor.Studio.Monad.{
  World, Mail, handed, pure, read, require, write, attempt, notify, guard, ◌>>=◌, ◌>>◌,
}
use hemsidor.Studio.Workflow.{Step, load_order, stamp, advance}
use hemsidor.Studio.Workflow.Steps.{after_stamp}
use hemsidor.Studio.Publication.{non_blank}
use hemsidor.Studio.Cancellation.{delivery_for, refund_one}

module _ {o : Orm} {c : Cell} where
  -- The world with a message more.
  abbrev pub telling : Option Mail → (Mail → Message) → World o c → World o c
  telling mail message w = record w { outbox = w.outbox ++ handed mail message }

  notify_runs :
      (mail : Option Mail) (message : Mail → Message) (w : World o c)
      → notify mail message w ≡ (ok tt, telling mail message w)
  unfolding notify
  notify_runs none message w =
      ap (λ (ms : List Message). (ok tt, record w { outbox = ms })) (sym (append-nil w.outbox))
  notify_runs (some m) message w = refl

  stamp_runs :
      (column : Option Column) (id : ℕ) (mail : Option Mail) (message : Mail → Message)
      (w : World o c)
      → (stamp o c column id >> notify mail message) w
        ≡ (ok tt, telling mail message (record w { db = after_stamp o column id w.db }))
  unfolding stamp pure attempt ◌>>=◌
  stamp_runs none id mail message w = notify_runs mail message w
  stamp_runs (some column) id mail message w = notify_runs mail message _

  -- A step.
  pub advance_runs :
      (mail : Option Mail) (id : ℕ) (step : Step) (w : World o c) (order : Order)
      (current : OrderStatus) (chosen : Package)
      → o.find_order id w.db ≡ ok (some order)
      → from_slug order.status ≡ some current
      → can_transition_to current step.to ≡ true
      → Package.parse order.«package» ≡ ok chosen
      → (o.execute (set_status (Status.slug step.to) order.id) w.db).0 ≡ ok tt
      → advance o c mail id step w ≡ (
        ok tt,
        telling mail
            (λ m. step.message order.company chosen order.email m.from m.studio)
            (record w {
              db =
                  after_stamp o step.stamp order.id
                    (o.execute (set_status (Status.slug step.to) order.id) w.db).1;
            }),
      )
  unfolding advance load_order read require write guard ◌>>=◌
  advance_runs mail id step w order current chosen found was may parsed saved =
      rw (found, was, may, parsed, saved)
        (stamp_runs step.stamp order.id mail _
          (record w { db = (o.execute (set_status (Status.slug step.to) order.id) w.db).1 }))

  -- A refund.
  pub refund_one_runs :
      (mail : Option Mail) (id : ℕ) (w : World o c) (order : Order) (chosen : Package)
      (sites : List Site) (site : Site) (deliveries : List Delivery) (delivery : Delivery)
      (reason : Text)
      → o.find_order id w.db ≡ ok (some order)
      → from_slug order.status ≡ some avbruten
      → to_option (Package.parse order.«package») ≡ some chosen
      → o.all_sites w.db ≡ ok sites
      → find (λ s. is_id s.order_id id) sites ≡ some site
      → o.all_deliveries w.db ≡ ok deliveries
      → find (λ d. is_id d.site_id site.id) deliveries ≡ some delivery
      → non_blank delivery.refund_reason ≡ some reason
      → delivery.refunded_at ≡ none
      → (o.execute (stamp_refunded delivery.id) w.db).0 ≡ ok tt
      → refund_one o c mail id w ≡ (
        ok tt,
        telling mail
            (λ m. refund_issued order.company chosen reason order.email m.from m.studio)
            (record w { db = (o.execute (stamp_refunded delivery.id) w.db).1 }),
      )
  unfolding refund_one load_order delivery_for read require write guard ◌>>=◌
  refund_one_runs mail id w order chosen sites site deliveries delivery reason found was parsed
        listed of_order rows of_site given first saved =
      rw (found, was, parsed, listed, of_order, rows, of_site, given, first, saved)
        (notify_runs mail _ (record w { db = (o.execute (stamp_refunded delivery.id) w.db).1 }))
