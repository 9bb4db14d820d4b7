-- ===== src/Studio/Accept.antt =====
-- crates/hemsidor24-admin/src/accept.rs: from an order to a customer, a site and a delivery.
use hemsidor.Prelude.{is_some, ℕ, false, not, none, some, ok}
use hemsidor.Text.{codes, text_eq}
use hemsidor.Studio.Models.{Order, Customer, Site, Delivery}
use hemsidor.Studio.Tables.{link_customer}
use hemsidor.Studio.Backend.{Orm}
use hemsidor.Handover.Cell.{Cell}
use hemsidor.Studio.Monad.{
  Action, has_customer, is_cancelled, customer_not_created, site_not_created, delivery_not_created,
  not_linked, write, guard, ◌>>=◌, ◌>>◌,
}
use hemsidor.Studio.Workflow.{load_order}

-- The rows as they are inserted; the database gives each its identifier in place of 0.
unfoldable pub new_customer : Order → ℕ → Customer
new_customer order now = record {
  id = 0;
  company = order.company;
  city = order.city;
  phone = order.phone;
  email = order.email;
  org_nr = none;
  notes = none;
  created_at = now;
}

unfoldable pub new_site : Order → ℕ → ℕ → Site
new_site order customer_id now = record {
  id = 0;
  customer_id = some customer_id;
  order_id = some order.id;
  domain_id = none;
  repo_url = none;
  live_url = none;
  hosting_ref = none;
  «package» = order.«package»;
  revisions_used = 0;
  published_at = none;
  notes = none;
  created_at = now;
}

unfoldable pub new_delivery : ℕ → ℕ → ℕ → Delivery
new_delivery site_id customer_id now = record {
  id = 0;
  site_id = some site_id;
  customer_id = some customer_id;
  offered_at = none;
  accepted_at = none;
  domain_transferred = false;
  hosting_transferred = false;
  source_transferred = false;
  refunded_at = none;
  refund_reason = none;
  notes = none;
  created_at = now;
}

module _ (o : Orm) (c : Cell) where
  -- `Utc::now()`
  unfoldable pub moment : Action o c ℕ
  moment w = (ok (o.now w.db), w)

  -- `accept_one`
  unfoldable pub accept_one : ℕ → Action o c (Unit {0})
  accept_one order_id = do
    order ← load_order o c order_id
    guard (not (is_some order.customer_id)) has_customer
    guard (not (text_eq order.status (codes "avbruten"))) is_cancelled
    now ← moment
    customer_id ← write (o.create_customer (new_customer order now)) customer_not_created
    site_id ← write (o.create_site (new_site order customer_id now)) site_not_created
    delivery_id ←
        write (o.create_delivery (new_delivery site_id customer_id now)) delivery_not_created
    write (o.execute (link_customer customer_id order.id)) not_linked
