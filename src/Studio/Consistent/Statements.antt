-- ===== src/Studio/Consistent/Statements.antt =====
-- Each statement of the back office leaves the tables consistent, where it is run as the actions run
-- it.
use hemsidor.Prelude.{
  ℕ, true, ◌≡◌, refl, sym, inl, inr, none, some, List, map, find_passes, find, ◌==◌, Bool-cases,
  All, All_mono,
}
use mathlib.Core.Path.{subst}
use hemsidor.Core.Status.{OrderStatus, slug, from_slug, publicerad}
use hemsidor.Core.Status.Laws.{Arrow}
use hemsidor.Studio.Models.{Order, Site, Delivery}
use hemsidor.Studio.Tables.{
  Tables, is_id, set_status, link_customer, stamp_published, with_published, perform,
}
use hemsidor.Studio.Grows.{OrderGrows, SiteGrows, Extends, Unique, order_ids}
use hemsidor.Studio.Grows.Rows.{OrderGrows-refl, SiteGrows-refl, Extends-refl, Extends-map}
use hemsidor.Studio.Grows.Stamps.{with_published-grows}
use hemsidor.Studio.Grows.Statements.{set_status-Grows, link_customer-Grows}
use hemsidor.Studio.Lives.{status_of}
use hemsidor.Studio.Consistent.{Live, Delivers, HandedOver, Repaid, Consistent}
use hemsidor.Studio.Consistent.Rows.{
  Final, published, cancelled, still_final, still_delivers, only_row, same_keys, All-map, All-both,
}

carried :
    {s : OrderStatus} (xs ys : List Order) (sites later : List Site) (d : Delivery)
    → Final s
    → Extends OrderGrows xs ys
    → Extends SiteGrows sites later
    → Delivers xs sites s d
    → Delivers ys later s d
carried xs ys sites later d final grown more (n, of_order, status) =
    (n, still_delivers n d sites later more of_order, still_final n xs ys final grown status)

-- What a statement does to one row.
published_id : (now k : ℕ) (y : Site) → (with_published now k y).id ≡ y.id
published_id now k y = elim (Bool-cases (y.id == k)) [
  | inl here ↦ rw here refl
  | inr there ↦ rw there refl
]

published-Live :
    (now n : ℕ) (site : Site) (orders : List Order) (y : Site)
    → is_id site.order_id n ≡ true
    → status_of n orders ≡ some publicerad
    → (y.id == site.id ≡ true → y ≡ site)
    → Live orders y
    → Live orders (with_published now site.id y)
published-Live now n site orders y of_order up same live = elim (Bool-cases (y.id == site.id)) [
  | inl here ↦
      rw here
        (λ set. (n, subst (λ (s : Site). is_id s.order_id n ≡ true) (sym (same here)) of_order, up))
  | inr there ↦ rw there live
]

-- One list of the tables changes.
module _ (t : Tables) (h : Consistent t) where
  orders_moved :
      (os : List Order)
      → Extends OrderGrows t.orders os
      → map (λ row. row.id) os ≡ order_ids t
      → Consistent (record t { orders = os })
  orders_moved os grown ids =
      let sites = Extends-refl SiteGrows SiteGrows-refl t.sites in
      record {
        order_keys = subst Unique (sym ids) h.order_keys;
        site_keys = h.site_keys;
        delivery_keys = h.delivery_keys;
        live =
            All_mono (Live t.orders) {Q = Live os}
              (λ s was up.
                let (n, of_order, status) = was up in
                (n, of_order, still_final n t.orders os published grown status))
              t.sites h.live;
        handed_over =
            All_mono (HandedOver t.orders t.sites) {Q = HandedOver os t.sites}
              (λ d was up. carried t.orders os t.sites t.sites d published grown sites (was up))
              t.deliveries h.handed_over;
        repaid =
            All_mono (Repaid t.orders t.sites) {Q = Repaid os t.sites}
              (λ d was up. carried t.orders os t.sites t.sites d cancelled grown sites (was up))
              t.deliveries h.repaid;
      }

  pub sites_moved :
      (ss : List Site)
      → Extends SiteGrows t.sites ss
      → Unique (map (λ row. row.id) ss)
      → All (Live t.orders) ss
      → Consistent (record t { sites = ss })
  sites_moved ss grown keys live =
      let orders = Extends-refl OrderGrows OrderGrows-refl t.orders in
      record {
        order_keys = h.order_keys;
        site_keys = keys;
        delivery_keys = h.delivery_keys;
        live = live;
        handed_over =
            All_mono (HandedOver t.orders t.sites) {Q = HandedOver t.orders ss}
              (λ d was up. carried t.orders t.orders t.sites ss d published orders grown (was up))
              t.deliveries h.handed_over;
        repaid =
            All_mono (Repaid t.orders t.sites) {Q = Repaid t.orders ss}
              (λ d was up. carried t.orders t.orders t.sites ss d cancelled orders grown (was up))
              t.deliveries h.repaid;
      }

  pub deliveries_moved :
      (ds : List Delivery)
      → Unique (map (λ row. row.id) ds)
      → All (HandedOver t.orders t.sites) ds
      → All (Repaid t.orders t.sites) ds
      → Consistent (record t { deliveries = ds })
  deliveries_moved ds keys handed_over repaid = record {
    order_keys = h.order_keys;
    site_keys = h.site_keys;
    delivery_keys = keys;
    live = h.live;
    handed_over = handed_over;
    repaid = repaid;
  }

  -- The two statements that write to `orders`.
  pub set_status-Consistent :
      (now id : ℕ) (order : Order) (current to : OrderStatus)
      → find (λ row. row.id == id) t.orders ≡ some order
      → from_slug order.status ≡ some current
      → Arrow current to
      → Consistent (perform now (set_status (slug to) order.id) t)
  unfolding perform
  set_status-Consistent now id order current to found was arrow =
      let grown = set_status-Grows order now id current to t h.order_keys found was arrow in
      orders_moved _ grown.orders grown.ids

  pub link_customer-Consistent :
      (now id customer_id : ℕ) (order : Order)
      → find (λ row. row.id == id) t.orders ≡ some order
      → order.customer_id ≡ none
      → Consistent (perform now (link_customer customer_id order.id) t)
  unfolding perform
  link_customer-Consistent now id customer_id order found free =
      let grown = link_customer-Grows order now id customer_id t h.order_keys found free in
      orders_moved _ grown.orders grown.ids

  -- A site goes live when its order has been published.
  pub stamp_published-Consistent :
      (now n : ℕ) (site : Site)
      → find (λ s. is_id s.order_id n) t.sites ≡ some site
      → status_of n t.orders ≡ some publicerad
      → Consistent (perform now (stamp_published site.id) t)
  unfolding perform
  stamp_published-Consistent now n site found up =
      let of_order = find_passes (λ s. is_id s.order_id n) t.sites found in
      let same =
        only_row (λ (s : Site). s.id) (λ s. is_id s.order_id n) t.sites site h.site_keys found in
      sites_moved (map (with_published now site.id) t.sites)
        (Extends-map SiteGrows (with_published now site.id) (with_published-grows now site.id)
          t.sites)
        (subst Unique
          (sym (
            same_keys (λ (s : Site). s.id) (with_published now site.id) (published_id now site.id)
              t.sites))
          h.site_keys)
        (All-map _ (Live t.orders) (with_published now site.id)
          (λ y both. published-Live now n site t.orders y of_order up both.0 both.1) t.sites
          (All-both _ _ t.sites same h.live))
