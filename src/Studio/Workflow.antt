-- ===== src/Studio/Workflow.antt =====
-- crates/hemsidor24-admin/src/workflow.rs: moving one order a step along, and telling the customer.
pub mod Steps
use hemsidor.Prelude.{ℕ, Option, none, some, ok, Result, to_option}
use hemsidor.Text.{Text}
use hemsidor.Core.Status
use hemsidor.Core.Status.{OrderStatus, from_slug, can_transition_to}
use hemsidor.Core.Package
use hemsidor.Core.Package.{Package}
use hemsidor.Notify.Message.{Message}
use hemsidor.Studio.Models.{Order}
use hemsidor.Studio.Tables.{Column, set_status, stamp_delivery}
use hemsidor.Studio.Backend.{Orm}
use hemsidor.Handover.Cell.{Cell}
use hemsidor.Studio.Monad.{
  Action, Mail, order_missing, order_unreadable, unknown_status, unknown_package, cannot_move,
  status_not_saved, pure, require, read, write, attempt, notify, guard, ◌>>=◌, ◌>>◌,
}

-- `Step`
pub record Step : Type 0 where
  pub to : OrderStatus
  pub stamp : Option Column
  pub message : Text → Package → Text → Text → Text → Message

module _ (o : Orm) (c : Cell) where
  -- The reading of the order with which every action begins.
  unfoldable pub load_order : ℕ → Action o c Order
  load_order order_id = do
    found ← read (o.find_order order_id) order_unreadable
    require found order_missing

  -- `if let Some(column) = step.stamp { stamp_delivery(…) }`
  unfoldable pub stamp : Option Column → ℕ → Action o c (Unit {0})
  stamp none order_id = pure tt
  stamp (some column) order_id = attempt (o.execute (stamp_delivery column order_id))

module _ (o : Orm) (c : Cell) (mail : Option Mail) where
  -- `advance`
  unfoldable pub advance : ℕ → Step → Action o c (Unit {0})
  advance order_id step = do
    order ← load_order o c order_id
    current ← require (from_slug order.status) (unknown_status order.status)
    guard (can_transition_to current step.to) (cannot_move step.to current)
    chosen ← require (to_option (Package.parse order.«package»)) (unknown_package order.«package»)
    write (o.execute (set_status (Status.slug step.to) order.id)) status_not_saved
    stamp o c step.stamp order.id
    notify mail (λ m. step.message order.company chosen order.email m.from m.studio)
