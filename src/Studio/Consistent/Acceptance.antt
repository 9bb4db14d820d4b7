-- ===== src/Studio/Consistent/Acceptance.antt =====
-- Accepting an order leaves the tables consistent.
use hemsidor.Prelude.{ℕ, ◌≡◌, sym, none, some, find, ◌==◌, ok}
use mathlib.Core.Path.{subst}
use hemsidor.Studio.Models.{Order, Customer}
use hemsidor.Studio.Tables.{Tables, link_customer}
use hemsidor.Studio.Backend.{Orm, IsOrm}
use hemsidor.Handover.Cell.{Cell}
use hemsidor.Studio.Monad.{World}
use hemsidor.Studio.Monad.Ends.{Ends-write, Ends-guard, Ends-last_write, Ends-both}
use hemsidor.Studio.Monad.Calls.{Ends-load_order, Ends-moment}
use hemsidor.Studio.Accept.{accept_one, new_site, new_delivery}
use hemsidor.Studio.Outcomes.{none_of_not}
use hemsidor.Studio.Consistent.{Consistent}
use hemsidor.Studio.Consistent.Statements.{link_customer-Consistent}
use hemsidor.Studio.Consistent.Inserts.{
  FreshKeys, customers-Consistent, new_site-Consistent, new_delivery-Consistent,
}
use hemsidor.Studio.Consistent.OneOrder.{Sound, execute_then}

-- The order is where it was.
record Holds (id : ℕ) (order : Order) (t : Tables) : Type 0 where
  consistent : Consistent t
  found : find (λ row. row.id == id) t.orders ≡ some order

module _ (o : Orm) (laws : IsOrm o) (fresh : FreshKeys o) (id : ℕ) (order : Order) where
  customer-Holds :
      (c : Customer) (d : o.Db) (key : ℕ)
      → (o.create_customer c d).0 ≡ ok key
      → Holds id order (o.tables d)
      → Holds id order (o.tables (o.create_customer c d).1)
  customer-Holds c d key e h =
      subst (Holds id order) (sym (laws.create_customer_ok c d key e))
        (record { consistent = customers-Consistent (o.tables d) h.consistent _; found = h.found })

  site-Holds :
      (customer_id now : ℕ) (d : o.Db) (key : ℕ)
      → (o.create_site (new_site order customer_id now) d).0 ≡ ok key
      → Holds id order (o.tables d)
      → Holds id order (o.tables (o.create_site (new_site order customer_id now) d).1)
  site-Holds customer_id now d key e h =
      subst (Holds id order) (sym (laws.create_site_ok (new_site order customer_id now) d key e))
        (record {
          consistent =
              new_site-Consistent (o.tables d) h.consistent order customer_id now key
                (fresh.site _ d key e);
          found = h.found;
        })

  delivery-Holds :
      (site_id customer_id now : ℕ) (d : o.Db) (key : ℕ)
      → (o.create_delivery (new_delivery site_id customer_id now) d).0 ≡ ok key
      → Holds id order (o.tables d)
      → Holds id order (o.tables (o.create_delivery (new_delivery site_id customer_id now) d).1)
  delivery-Holds site_id customer_id now d key e h =
      subst (Holds id order)
        (sym (laws.create_delivery_ok (new_delivery site_id customer_id now) d key e))
        (record {
          consistent =
              new_delivery-Consistent (o.tables d) h.consistent site_id customer_id now key
                (fresh.delivery _ d key e);
          found = h.found;
        })

  linked :
      (customer_id : ℕ) (d : o.Db)
      → order.customer_id ≡ none
      → Holds id order (o.tables d)
      → Consistent (o.tables (o.execute (link_customer customer_id order.id) d).1)
  linked customer_id d free h =
      execute_then o laws Consistent (link_customer customer_id order.id) d h.consistent (
        link_customer-Consistent (o.tables d) h.consistent (o.now d) id customer_id order h.found
          free)

module _ (o : Orm) (laws : IsOrm o) (fresh : FreshKeys o) (c : Cell) where
  pub accept_one-Sound : (id : ℕ) (w : World o c) → Sound o c w → Sound o c (accept_one o c id w).1
  unfolding accept_one
  accept_one-Sound id w h = Ends-both {P = Sound o c} (accept_one o c id) w (
      Ends-load_order laws id _ w h λ order found. Ends-guard _ _ _ w h λ free.
        Ends-guard _ _ _ w h λ still_open. Ends-moment _ w (
          Ends-write _ _ _ w
            (λ e failed. subst Consistent (sym (laws.create_customer_err _ w.db e failed)) h)
            λ customer_id e1.
              let one =
                customer-Holds o laws fresh id order _ w.db customer_id e1
                  (record { consistent = h; found = found }) in
              Ends-write _ _ _ _
                (λ e failed.
                  subst Consistent (sym (laws.create_site_err _ _ e failed)) one.consistent)
                λ site_id e2.
                  let two = site-Holds o laws fresh id order customer_id _ _ site_id e2 one in
                  Ends-write _ _ _ _
                    (λ e failed.
                      subst Consistent (sym (laws.create_delivery_err _ _ e failed)) two.consistent)
                    λ delivery_id e3.
                      let three =
                        delivery-Holds o laws fresh id order site_id customer_id _ _ delivery_id e3
                          two in
                      let done =
                        linked o laws fresh id order customer_id _
                          (none_of_not order.customer_id free) three in
                      Ends-last_write _ _ _ (λ _ _. done) (λ _ _. done)))
