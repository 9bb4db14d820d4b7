-- ===== src/Studio/Outcomes/Acceptance/Writes.antt =====
-- The statements of crates/hemsidor24-admin/src/accept.rs, one after another.
use hemsidor.Prelude.{
  ℕ, false, ◌≡◌, refl, ap, ◌∙◌, none, some, [], ◌∷◌, ◌++◌, map, find, ◌==◌, ok, arith,
}
use hemsidor.Text.{codes, text_eq}
use hemsidor.Studio.Models.{Order}
use hemsidor.Studio.Tables.{Tables, perform, link_customer, with_customer}
use hemsidor.Studio.Backend.{Orm, IsOrm}
use hemsidor.Handover.Cell.{Cell}
use hemsidor.Studio.Monad.{World}
use hemsidor.Studio.Monad.Ends.{Ends, Ends-write, Ends-guard, Ends-last_write, Ends-ok}
use hemsidor.Studio.Monad.Calls.{Ends-load_order, Ends-moment}
use hemsidor.Studio.Accept.{accept_one, new_customer, new_site, new_delivery}
use hemsidor.Studio.Outcomes.{none_of_not, Quiet}

module _ (o : Orm) where
  -- The database after each of the statements of an acceptance.
  abbrev pub with_new_customer : Order → ℕ → o.Db → o.Db
  with_new_customer order now d = (o.create_customer (new_customer order now) d).1

  abbrev pub with_new_site : Order → ℕ → ℕ → o.Db → o.Db
  with_new_site order customer_id now d =
      (o.create_site (new_site order customer_id now) (with_new_customer order now d)).1

  abbrev pub with_new_delivery : Order → ℕ → ℕ → ℕ → o.Db → o.Db
  with_new_delivery order customer_id site_id now d =
      (o.create_delivery (new_delivery site_id customer_id now)
        (with_new_site order customer_id now d)).1

  abbrev pub with_all : Order → ℕ → ℕ → ℕ → o.Db → o.Db
  with_all order customer_id site_id now d =
      (o.execute (link_customer customer_id order.id)
        (with_new_delivery order customer_id site_id now d)).1

  -- The tables with the three new rows and the link.
  abbrev pub accepted_tables : Order → ℕ → ℕ → ℕ → ℕ → Tables → Tables
  accepted_tables order customer_id site_id delivery_id now t = record t {
    orders = map (with_customer customer_id order.id) t.orders;
    customers = t.customers ++ record (new_customer order now) { id = customer_id } ∷ [];
    sites = t.sites ++ record (new_site order customer_id now) { id = site_id } ∷ [];
    deliveries =
        t.deliveries ++ record (new_delivery site_id customer_id now) { id = delivery_id } ∷ [];
  }

  pub with_all-tables :
      IsOrm o
      → (order : Order) (customer_id site_id delivery_id now : ℕ) (d : o.Db)
      → (o.create_customer (new_customer order now) d).0 ≡ ok customer_id
      → (o.create_site (new_site order customer_id now) (with_new_customer order now d)).0
        ≡ ok site_id
      → (o.create_delivery
          (new_delivery site_id customer_id now)
          (with_new_site order customer_id now d)).0
        ≡ ok delivery_id
      → (o.execute
          (link_customer customer_id order.id)
          (with_new_delivery order customer_id site_id now d)).0
        ≡ ok tt
      → o.tables (with_all order customer_id site_id now d)
        ≡ accepted_tables order customer_id site_id delivery_id now (o.tables d)
  unfolding perform
  with_all-tables laws order customer_id site_id delivery_id now d e1 e2 e3 e4 =
      laws.execute_ok (link_customer customer_id order.id) _ e4
      ∙ ap (perform now (link_customer customer_id order.id)) (
          laws.create_delivery_ok (new_delivery site_id customer_id now) _ delivery_id e3
          ∙ ap
              (λ (t : Tables). record t {
                deliveries =
                    t.deliveries
                    ++ record (new_delivery site_id customer_id now) { id = delivery_id } ∷ [];
              })
              (laws.create_site_ok (new_site order customer_id now) _ site_id e2
                ∙ ap
                    (λ (t : Tables). record t {
                      sites =
                          t.sites ++ record (new_site order customer_id now) { id = site_id } ∷ [];
                    })
                    (laws.create_customer_ok (new_customer order now) d customer_id e1)))

module _ (o : Orm) (laws : IsOrm o) (c : Cell) where
  -- What an acceptance that ends well has found and written.
  pub record Written (id : ℕ) (w v : World o c) : Type 0 where
    pub order : Order
    pub customer_id : ℕ
    pub site_id : ℕ
    pub delivery_id : ℕ
    pub found : find (λ row. row.id == id) (o.tables w.db).orders ≡ some order
    pub free : order.customer_id ≡ none
    pub open_order : text_eq order.status (codes "avbruten") ≡ false
    pub added :
        o.tables v.db
        ≡ accepted_tables o order customer_id site_id delivery_id (o.now w.db) (o.tables w.db)

  accept_one-Ends :
      (id : ℕ) (w : World o c)
      → Ends (Quiet w) (λ _ v. Written id w v × Quiet w v) (accept_one o c id) w
  unfolding accept_one
  accept_one-Ends id w =
      let now = o.now w.db in
      Ends-load_order laws id _ w refl λ order found. Ends-guard _ _ _ w refl λ free.
        Ends-guard _ _ _ w refl λ open_order. Ends-moment _ w (
          Ends-write _ _ _ w (λ _ _. refl)
            λ customer_id e1.
              Ends-write _ _ _ _ (λ _ _. refl)
                λ site_id e2.
                  Ends-write _ _ _ _ (λ _ _. refl)
                    λ delivery_id e3.
                      Ends-last_write _ _ _ (λ _ _. refl)
                        λ answer e4. (
                          record {
                            order = order;
                            customer_id = customer_id;
                            site_id = site_id;
                            delivery_id = delivery_id;
                            found = found;
                            free = none_of_not order.customer_id free;
                            open_order = ground arith;
                            added =
                                with_all-tables o laws order customer_id site_id delivery_id now
                                  w.db e1 e2 e3 e4;
                          },
                          refl,
                        ))

  pub accept_one-Written :
      (id : ℕ) (w : World o c)
      → (accept_one o c id w).0 ≡ ok tt
      → Written id w (accept_one o c id w).1 × ((accept_one o c id w).1.outbox ≡ w.outbox)
  accept_one-Written id w h = Ends-ok _ w tt (accept_one-Ends id w) h
