-- ===== src/Studio/Outcomes/Acceptance.antt =====
-- What turning an order into a customer and a delivery has found and done.
pub mod Writes
use hemsidor.Prelude.{
  ℕ, false, ◌≡◌, ◌≢◌, refl, ap, ◌∙◌, none, some, List, [], ◌∷◌, ◌++◌, map, find, ◌==◌, ok, arith,
  ==_iff, find_passes, inl, inr, Bool-cases,
}
use hemsidor.Text.{codes, text_eq}
use hemsidor.Studio.Models.{Order, Customer, Site, Delivery}
use hemsidor.Studio.Tables.{Tables, perform, link_customer, with_customer}
use hemsidor.Studio.Backend.{Orm, IsOrm}
use hemsidor.Handover.Cell.{Cell}
use hemsidor.Studio.Monad.{World}
use hemsidor.Studio.Monad.Ends.{Ends, Ends-write, Ends-guard, Ends-last_write, Ends-ok}
use hemsidor.Studio.Monad.Calls.{Ends-load_order, Ends-moment}
use hemsidor.Studio.Accept.{accept_one, new_customer, new_site, new_delivery}
use hemsidor.Studio.Outcomes.{none_of_not, Quiet}
use hemsidor.Studio.Outcomes.Acceptance.Writes.{accepted_tables, accept_one-Written}

-- The row that was found has the customer afterwards.
pub find_linked :
    (n id : ℕ) (os : List Order) (order : Order)
    → find (λ row. row.id == id) os ≡ some order
    → find (λ row. row.id == id) (map (with_customer n id) os)
      ≡ some (record order { customer_id = some n })
find_linked n id [] order h = absurd (ground arith)
find_linked n id (row ∷ os) order h = elim (Bool-cases (row.id == id)) [
  | inl here ↦
      let same : row ≡ order = ground arith in
      rw (here, here) (ap (λ (o : Order). some (record o { customer_id = some n })) same)
  | inr other ↦ rw (other, other) (find_linked n id os order (ground (arith, other, h)))
]

-- The rows of other keys are found as they were.
find_unlinked :
    (n id k : ℕ) (os : List Order)
    → k ≢ id
    → find (λ row. row.id == k) (map (with_customer n id) os) ≡ find (λ row. row.id == k) os
find_unlinked n id k [] differ = refl
find_unlinked n id k (row ∷ os) differ = ground (arith, find_unlinked n id k os differ)

-- The customer has the contact details of the order, and nothing else is known of it.
abbrev pub CustomerOf : Order → ℕ → Customer → Type 0
CustomerOf order now customer =
    (customer.company ≡ order.company)
    × (customer.city ≡ order.city)
    × (customer.phone ≡ order.phone)
    × (customer.email ≡ order.email)
    × (customer.org_nr ≡ none)
    × (customer.notes ≡ none)
    × (customer.created_at ≡ now)

-- The site is the customer's, for that order and its package, and is not published.
abbrev pub SiteOf : Order → ℕ → Customer → Site → Type 0
SiteOf order now customer site =
    (site.customer_id ≡ some customer.id)
    × (site.order_id ≡ some order.id)
    × (site.«package» ≡ order.«package»)
    × (site.domain_id ≡ none)
    × (site.repo_url ≡ none)
    × (site.live_url ≡ none)
    × (site.hosting_ref ≡ none)
    × (site.revisions_used ≡ 0)
    × (site.published_at ≡ none)
    × (site.notes ≡ none)
    × (site.created_at ≡ now)

-- The delivery is the customer's, of that site; nothing has been offered, accepted, handed over or
-- refunded.
abbrev pub DeliveryOf : ℕ → Customer → Site → Delivery → Type 0
DeliveryOf now customer site delivery =
    (delivery.site_id ≡ some site.id)
    × (delivery.customer_id ≡ some customer.id)
    × (delivery.offered_at ≡ none)
    × (delivery.accepted_at ≡ none)
    × (delivery.domain_transferred ≡ false)
    × (delivery.hosting_transferred ≡ false)
    × (delivery.source_transferred ≡ false)
    × (delivery.refunded_at ≡ none)
    × (delivery.refund_reason ≡ none)
    × (delivery.notes ≡ none)
    × (delivery.created_at ≡ now)

-- The tables before and after an order was accepted at the moment `now`.
pub record Accepted (id now : ℕ) (t u : Tables) : Type 0 where
  pub order : Order
  pub customer : Customer
  pub site : Site
  pub delivery : Delivery
  pub found : find (λ row. row.id == id) t.orders ≡ some order
  pub free : order.customer_id ≡ none
  pub open_order : text_eq order.status (codes "avbruten") ≡ false
  pub customers : u.customers ≡ t.customers ++ customer ∷ []
  pub sites : u.sites ≡ t.sites ++ site ∷ []
  pub deliveries : u.deliveries ≡ t.deliveries ++ delivery ∷ []
  pub domains : u.domains ≡ t.domains
  pub linked :
      find (λ row. row.id == id) u.orders ≡ some (record order { customer_id = some customer.id })
  pub others :
      (k : ℕ) → k ≢ id → find (λ row. row.id == k) u.orders ≡ find (λ row. row.id == k) t.orders
  pub of_order : CustomerOf order now customer
  pub of_customer : SiteOf order now customer site
  pub of_site : DeliveryOf now customer site delivery

accepted_tables-Accepted :
    (o : Orm) (id : ℕ) (order : Order) (customer_id site_id delivery_id now : ℕ) (t u : Tables)
    → find (λ row. row.id == id) t.orders ≡ some order
    → order.customer_id ≡ none
    → text_eq order.status (codes "avbruten") ≡ false
    → u ≡ accepted_tables o order customer_id site_id delivery_id now t
    → Accepted id now t u
unfolding new_customer new_site new_delivery
accepted_tables-Accepted o id order customer_id site_id delivery_id now t u found free open_order
      e =
    let key : order.id ≡ id =
      (==_iff order.id id).0 (find_passes (λ row. row.id == id) t.orders found) in
    let orders : u.orders ≡ map (with_customer customer_id id) t.orders =
      ap (λ r. r.orders) e ∙ ap (λ n. map (with_customer customer_id n) t.orders) key in
    record {
      order = order;
      customer = record (new_customer order now) { id = customer_id };
      site = record (new_site order customer_id now) { id = site_id };
      delivery = record (new_delivery site_id customer_id now) { id = delivery_id };
      found = found;
      free = free;
      open_order = open_order;
      customers = ap (λ r. r.customers) e;
      sites = ap (λ r. r.sites) e;
      deliveries = ap (λ r. r.deliveries) e;
      domains = ap (λ r. r.domains) e;
      linked =
          ap (find (λ row. row.id == id)) orders ∙ find_linked customer_id id t.orders order found;
      others = λ k differ.
          ap (find (λ row. row.id == k)) orders ∙ find_unlinked customer_id id k t.orders differ;
      of_order = (refl, refl, refl, refl, refl, refl, refl);
      of_customer = (refl, refl, refl, refl, refl, refl, refl, refl, refl, refl, refl);
      of_site = (refl, refl, refl, refl, refl, refl, refl, refl, refl, refl, refl);
    }

module _ (o : Orm) (laws : IsOrm o) (c : Cell) where
  -- With a database that keeps to IsOrm, an acceptance that succeeds: the order was found without
  -- a customer and is not called off. One customer is added, with the order's company, city, phone
  -- and email; one site, of that customer, for that order and its package, not published; and one
  -- delivery, of that site and that customer, with nothing offered, accepted, handed over or
  -- refunded; each was created at that moment. The order is linked to that customer and is otherwise
  -- as it was, the orders of other keys and the domains are unchanged, and no message is handed to
  -- the mailer.
  pub accept_one-Accepted :
      (id : ℕ) (w : World o c)
      → (accept_one o c id w).0 ≡ ok tt
      → Accepted id (o.now w.db) (o.tables w.db) (o.tables (accept_one o c id w).1.db)
        × ((accept_one o c id w).1.outbox ≡ w.outbox)
  accept_one-Accepted id w h =
      let (done, quiet) = accept_one-Written o laws c id w h in
      (
        accepted_tables-Accepted o id done.order done.customer_id done.site_id done.delivery_id
            (o.now w.db) (o.tables w.db) (o.tables (accept_one o c id w).1.db) done.found done.free
            done.open_order done.added,
        quiet,
      )
