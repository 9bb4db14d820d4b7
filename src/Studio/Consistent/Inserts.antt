-- ===== src/Studio/Consistent/Inserts.antt =====
-- The rows that an acceptance inserts, under keys that the database has not given before.
use hemsidor.Prelude.{ℕ, false, ◌≡◌, List, [], ◌∷◌, ◌++◌, any, ◌==◌, ok, arith}
use hemsidor.Studio.Models.{Order, Customer, Site, Delivery}
use hemsidor.Studio.Tables.{Tables}
use hemsidor.Studio.Backend.{Orm}
use hemsidor.Studio.Accept.{new_site, new_delivery}
use hemsidor.Studio.Grows.{SiteGrows}
use hemsidor.Studio.Grows.Rows.{SiteGrows-refl, Extends-append}
use hemsidor.Studio.Consistent.{Live, HandedOver, Repaid, site_ids, delivery_ids, Consistent}
use hemsidor.Studio.Consistent.Rows.{Unique-append, All-append}
use hemsidor.Studio.Consistent.Statements.{sites_moved, deliveries_moved}

-- A key that the database gives is one that no row has.
pub record FreshKeys (o : Orm) : Type 0 where
  pub site :
      (s : Site) (d : o.Db) (id : ℕ)
      → (o.create_site s d).0 ≡ ok id
      → any (λ m. m == id) (site_ids (o.tables d)) ≡ false
  pub delivery :
      (r : Delivery) (d : o.Db) (id : ℕ)
      → (o.create_delivery r d).0 ≡ ok id
      → any (λ m. m == id) (delivery_ids (o.tables d)) ≡ false

module _ (t : Tables) (h : Consistent t) where
  pub customers-Consistent : (cs : List Customer) → Consistent (record t { customers = cs })
  customers-Consistent cs = record {
    order_keys = h.order_keys;
    site_keys = h.site_keys;
    delivery_keys = h.delivery_keys;
    live = h.live;
    handed_over = h.handed_over;
    repaid = h.repaid;
  }

  pub new_site-Consistent :
      (order : Order) (customer_id now id : ℕ)
      → any (λ m. m == id) (site_ids t) ≡ false
      → Consistent
          (record t { sites = t.sites ++ record (new_site order customer_id now) { id = id } ∷ [] })
  unfolding new_site
  new_site-Consistent order customer_id now id fresh =
      let s : Site = record (new_site order customer_id now) { id = id } in
      sites_moved t h (t.sites ++ s ∷ []) (Extends-append SiteGrows SiteGrows-refl t.sites (s ∷ []))
        (Unique-append (λ (s : Site). s.id) t.sites s h.site_keys fresh)
        (All-append (Live t.orders) t.sites s h.live (λ set. absurd (ground (arith, set))))

  pub new_delivery-Consistent :
      (site_id customer_id now id : ℕ)
      → any (λ m. m == id) (delivery_ids t) ≡ false
      → Consistent (record t {
        deliveries = t.deliveries ++ record (new_delivery site_id customer_id now) { id = id } ∷ [];
      })
  unfolding new_delivery
  new_delivery-Consistent site_id customer_id now id fresh =
      let d : Delivery = record (new_delivery site_id customer_id now) { id = id } in
      deliveries_moved t h (t.deliveries ++ d ∷ [])
        (Unique-append (λ (d : Delivery). d.id) t.deliveries d h.delivery_keys fresh)
        (All-append (HandedOver t.orders t.sites) t.deliveries d h.handed_over
          (λ set. absurd (ground (arith, set))))
        (All-append (Repaid t.orders t.sites) t.deliveries d h.repaid
          (λ set. absurd (ground (arith, set))))
