-- ===== src/Studio/Consistent.antt =====
-- What the tables say about one order agrees: a site went live, a promise was handed over and money
-- went back only where the order's status says so.
pub mod Rows
pub mod Statements
pub mod Deliveries
pub mod Inserts
pub mod OneOrder
pub mod Publication
pub mod Acceptance
pub mod History
use hemsidor.Prelude.{ℕ, true, ◌≡◌, ◌||◌, is_some, some, List, map, All}
use hemsidor.Core.Status.{OrderStatus, publicerad, avbruten}
use hemsidor.Studio.Models.{Order, Site, Delivery}
use hemsidor.Studio.Tables.{Tables, is_id, delivers}
use hemsidor.Studio.Grows.{Unique, order_ids}
use hemsidor.Studio.Lives.{status_of}

-- A site that is published is that of an order with the status publicerad.
abbrev pub Live : List Order → Site → Type 0
Live orders s =
    is_some s.published_at ≡ true
    → (n : ℕ) × (is_id s.order_id n ≡ true) × (status_of n orders ≡ some publicerad)

-- The delivery is that of an order with this status.
abbrev pub Delivers : List Order → List Site → OrderStatus → Delivery → Type 0
Delivers orders sites status d =
    (n : ℕ) × (delivers sites n d ≡ true) × (status_of n orders ≡ some status)

abbrev pub HandedOver : List Order → List Site → Delivery → Type 0
HandedOver orders sites d =
    d.domain_transferred || (d.hosting_transferred || d.source_transferred) ≡ true
    → Delivers orders sites publicerad d

abbrev pub Repaid : List Order → List Site → Delivery → Type 0
Repaid orders sites d = is_some d.refunded_at ≡ true → Delivers orders sites avbruten d

abbrev pub site_ids : Tables → List ℕ
site_ids t = map (λ row. row.id) t.sites

abbrev pub delivery_ids : Tables → List ℕ
delivery_ids t = map (λ row. row.id) t.deliveries

pub record Consistent (t : Tables) : Type 0 where
  pub order_keys : Unique (order_ids t)
  pub site_keys : Unique (site_ids t)
  pub delivery_keys : Unique (delivery_ids t)
  pub live : All (Live t.orders) t.sites
  pub handed_over : All (HandedOver t.orders t.sites) t.deliveries
  pub repaid : All (Repaid t.orders t.sites) t.deliveries
