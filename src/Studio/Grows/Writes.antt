-- ===== src/Studio/Grows/Writes.antt =====
-- The tables after a write of the back office, whether the database accepted it or not.
use hemsidor.Prelude.{◌≡◌, refl, sym, ap, ◌∙◌, [], ◌∷◌, Result-cases, inl, inr}
use mathlib.Core.Path.{subst}
use hemsidor.Studio.Models.{Customer, Site, Delivery}
use hemsidor.Studio.Tables.{Tables, Update, perform}
use hemsidor.Studio.Backend.{Orm, IsOrm}
use hemsidor.Studio.Grows.{Grows, SiteGrows, DeliveryGrows}
use hemsidor.Studio.Grows.Rows.{
  Grows-refl, Grows-trans, Grows-customers, Grows-sites, Grows-deliveries, Extends-append,
  SiteGrows-refl, DeliveryGrows-refl,
}

module _ (o : Orm) (laws : IsOrm o) (t : Tables) where
  -- An UPDATE that lets the tables grow when it succeeds lets them grow when it fails.
  pub execute-Grows :
      (u : Update) (d : o.Db)
      → Grows t (o.tables d)
      → Grows (o.tables d) (perform (o.now d) u (o.tables d))
      → Grows t (o.tables (o.execute u d).1)
  execute-Grows u d before step = elim (Result-cases (o.execute u d).0) [
    | inl (tt, e) ↦
        Grows-trans t (o.tables d) _ before
          (subst (Grows (o.tables d)) (sym (laws.execute_ok u d e)) step)
    | inr (why, e) ↦ subst (Grows t) (sym (laws.execute_err u d why e)) before
  ]

  -- Tables that have grown, with the orders as they were.
  pub record Inserted (d : o.Db) : Type 0 where
    pub grown : Grows t (o.tables d)
    pub orders : (o.tables d).orders ≡ t.orders

  Inserted-moved :
      (d e : o.Db) (v : Tables)
      → o.tables e ≡ v
      → Grows (o.tables d) v
      → v.orders ≡ (o.tables d).orders
      → Inserted d
      → Inserted e
  Inserted-moved d e v eq g same before = record {
    grown = subst (Grows t) (sym eq) (Grows-trans t (o.tables d) v before.grown g);
    orders = ap (λ (x : Tables). x.orders) eq ∙ (same ∙ before.orders);
  }

  pub create_customer-Inserted :
      (c : Customer) (d : o.Db) → Inserted d → Inserted (o.create_customer c d).1
  create_customer-Inserted c d before = elim (Result-cases (o.create_customer c d).0) [
    | inl (id, e) ↦
        Inserted-moved d (o.create_customer c d).1 _ (laws.create_customer_ok c d id e)
          (Grows-customers (o.tables d) (record c { id = id })) refl before
    | inr (why, e) ↦
        Inserted-moved d (o.create_customer c d).1 (o.tables d) (laws.create_customer_err c d why e)
          (Grows-refl (o.tables d)) refl before
  ]

  pub create_site-Inserted : (s : Site) (d : o.Db) → Inserted d → Inserted (o.create_site s d).1
  create_site-Inserted s d before = elim (Result-cases (o.create_site s d).0) [
    | inl (id, e) ↦
        Inserted-moved d (o.create_site s d).1 _ (laws.create_site_ok s d id e)
          (Grows-sites (o.tables d) _ (
            Extends-append SiteGrows SiteGrows-refl (o.tables d).sites (record s { id = id } ∷ [])))
          refl before
    | inr (why, e) ↦
        Inserted-moved d (o.create_site s d).1 (o.tables d) (laws.create_site_err s d why e)
          (Grows-refl (o.tables d)) refl before
  ]

  pub create_delivery-Inserted :
      (r : Delivery) (d : o.Db) → Inserted d → Inserted (o.create_delivery r d).1
  create_delivery-Inserted r d before = elim (Result-cases (o.create_delivery r d).0) [
    | inl (id, e) ↦
        Inserted-moved d (o.create_delivery r d).1 _ (laws.create_delivery_ok r d id e)
          (Grows-deliveries (o.tables d) _ (
            Extends-append DeliveryGrows DeliveryGrows-refl (o.tables d).deliveries
              (record r { id = id } ∷ [])))
          refl before
    | inr (why, e) ↦
        Inserted-moved d (o.create_delivery r d).1 (o.tables d) (laws.create_delivery_err r d why e)
          (Grows-refl (o.tables d)) refl before
  ]
