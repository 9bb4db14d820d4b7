-- ===== src/Studio/Cancellation.antt =====
-- crates/hemsidor24-admin/src/cancellation.rs: recording a refund. Calling an order off is a step of
-- Workflow, in Actions.
use hemsidor.Prelude.{is_some, ℕ, not, Option, find, to_option}
use hemsidor.Core.Status.{avbruten, status_eq, from_slug}
use hemsidor.Core.Package
use hemsidor.Notify.Message.{refund_issued}
use hemsidor.Studio.Models.{Delivery}
use hemsidor.Studio.Tables.{is_id, stamp_refunded}
use hemsidor.Studio.Backend.{Orm}
use hemsidor.Handover.Cell.{Cell}
use hemsidor.Studio.Monad.{
  Action, Mail, unknown_status, unknown_package, cancel_first, sites_unreadable,
  deliveries_unreadable, nothing_to_refund, delivery_missing, no_refund_reason, already_refunded,
  refund_not_saved, require, read, write, notify, guard, ◌>>=◌, ◌>>◌,
}
use hemsidor.Studio.Workflow.{load_order}
use hemsidor.Studio.Publication.{non_blank}

module _ (o : Orm) (c : Cell) where
  -- `delivery_for`
  unfoldable pub delivery_for : ℕ → Action o c Delivery
  delivery_for order_id = do
    sites ← read o.all_sites sites_unreadable
    site ← require (find (λ s. is_id s.order_id order_id) sites) nothing_to_refund
    deliveries ← read o.all_deliveries deliveries_unreadable
    require (find (λ d. is_id d.site_id site.id) deliveries) delivery_missing

module _ (o : Orm) (c : Cell) (mail : Option Mail) where
  -- `refund_one`
  unfoldable pub refund_one : ℕ → Action o c (Unit {0})
  refund_one order_id = do
    order ← load_order o c order_id
    status ← require (from_slug order.status) (unknown_status order.status)
    guard (status_eq status avbruten) (cancel_first status)
    chosen ← require (to_option (Package.parse order.«package»)) (unknown_package order.«package»)
    delivery ← delivery_for o c order_id
    reason ← require (non_blank delivery.refund_reason) no_refund_reason
    guard (not (is_some delivery.refunded_at)) already_refunded
    write (o.execute (stamp_refunded delivery.id)) refund_not_saved
    notify mail (λ m. refund_issued order.company chosen reason order.email m.from m.studio)
