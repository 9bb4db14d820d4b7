-- ===== src/Studio/Consistent/Deliveries.antt =====
-- The statements that write to `deliveries`.
use hemsidor.Prelude.{
  ℕ, Bool, true, ◌≡◌, sym, inl, inr, some, find, map, List, ◌==◌, Bool-cases, All, arith,
}
use mathlib.Core.Path.{subst}
use hemsidor.Core.Status.{publicerad, avbruten}
use hemsidor.Studio.Models.{Order, Site, Delivery}
use hemsidor.Studio.Tables.{
  Tables, Column, offered_at, accepted_at, delivers, stamp_delivery, transfer_flags, stamp_refunded,
  with_stamp, with_flags, with_refund, perform,
}
use hemsidor.Studio.Grows.{Unique}
use hemsidor.Studio.Lives.{status_of}
use hemsidor.Studio.Consistent.{Delivers, HandedOver, Repaid, Consistent}
use hemsidor.Studio.Consistent.Rows.{only_row, same_keys, All-map, All-both}
use hemsidor.Studio.Consistent.Statements.{deliveries_moved}

-- What a statement does to one row.
module _ (orders : List Order) (sites : List Site) where
  module _ (now id : ℕ) (d : Delivery) where
    with_stamp-same :
        (column : Column)
        → HandedOver orders sites d × Repaid orders sites d
        → HandedOver orders sites (with_stamp column now sites id d)
          × Repaid orders sites (with_stamp column now sites id d)
    with_stamp-same offered_at both = elim (Bool-cases (delivers sites id d)) [
      | inl here ↦ rw here both
      | inr there ↦ rw there both
    ]
    with_stamp-same accepted_at both = elim (Bool-cases (delivers sites id d)) [
      | inl here ↦ rw here both
      | inr there ↦ rw there both
    ]

    flags-HandedOver :
        (domain hosting source : Bool)
        → status_of id orders ≡ some publicerad
        → HandedOver orders sites d
        → HandedOver orders sites (with_flags sites id domain hosting source d)
    flags-HandedOver domain hosting source up was = elim (Bool-cases (delivers sites id d)) [
      | inl here ↦ rw here (λ set. (id, here, up))
      | inr there ↦ rw there was
    ]

    flags-Repaid :
        (domain hosting source : Bool)
        → Repaid orders sites d
        → Repaid orders sites (with_flags sites id domain hosting source d)
    flags-Repaid domain hosting source was = elim (Bool-cases (delivers sites id d)) [
      | inl here ↦ rw here was
      | inr there ↦ rw there was
    ]

    refund-HandedOver : HandedOver orders sites d → HandedOver orders sites (with_refund now id d)
    refund-HandedOver was = elim (Bool-cases (d.id == id)) [
      | inl here ↦ rw here was
      | inr there ↦ rw there was
    ]

  refund-Repaid :
      (now : ℕ) (delivery d : Delivery)
      → Delivers orders sites avbruten delivery
      → (d.id == delivery.id ≡ true → d ≡ delivery)
      → Repaid orders sites d
      → Repaid orders sites (with_refund now delivery.id d)
  refund-Repaid now delivery d off same was = elim (Bool-cases (d.id == delivery.id)) [
    | inl here ↦ rw here (λ set. subst (Delivers orders sites avbruten) (sym (same here)) off)
    | inr there ↦ rw there was
  ]

stamp_id :
    (column : Column) (now id : ℕ) (sites : List Site) (d : Delivery)
    → (with_stamp column now sites id d).id ≡ d.id
stamp_id offered_at now id sites d = ground arith
stamp_id accepted_at now id sites d = ground arith

module _ (t : Tables) (h : Consistent t) where
  both_rows : All (λ d. HandedOver t.orders t.sites d × Repaid t.orders t.sites d) t.deliveries
  both_rows =
      All-both (HandedOver t.orders t.sites) (Repaid t.orders t.sites) t.deliveries h.handed_over
        h.repaid

  -- Rows that keep their keys.
  rows_moved :
      (f : Delivery → Delivery)
      → ((d : Delivery) → (f d).id ≡ d.id)
      → All (HandedOver t.orders t.sites) (map f t.deliveries)
      → All (Repaid t.orders t.sites) (map f t.deliveries)
      → Consistent (record t { deliveries = map f t.deliveries })
  rows_moved f ids =
      deliveries_moved t h (map f t.deliveries)
        (subst Unique (sym (same_keys (λ (d : Delivery). d.id) f ids t.deliveries)) h.delivery_keys)

  pub stamp_delivery-Consistent :
      (now : ℕ) (column : Column) (id : ℕ) → Consistent (perform now (stamp_delivery column id) t)
  unfolding perform
  stamp_delivery-Consistent now column id =
      let f = with_stamp column now t.sites id in
      rows_moved f (stamp_id column now id t.sites)
        (All-map _ (HandedOver t.orders t.sites) f
          (λ d both. (with_stamp-same t.orders t.sites now id d column both).0) t.deliveries
          both_rows)
        (All-map _ (Repaid t.orders t.sites) f
          (λ d both. (with_stamp-same t.orders t.sites now id d column both).1) t.deliveries
          both_rows)

  -- The promises are flagged when the order has been published.
  pub transfer_flags-Consistent :
      (now id : ℕ) (domain hosting source : Bool)
      → status_of id t.orders ≡ some publicerad
      → Consistent (perform now (transfer_flags id domain hosting source) t)
  unfolding perform
  transfer_flags-Consistent now id domain hosting source up =
      let f = with_flags t.sites id domain hosting source in
      rows_moved f (λ d. ground arith)
        (All-map (HandedOver t.orders t.sites) (HandedOver t.orders t.sites) f
          (λ d. flags-HandedOver t.orders t.sites now id d domain hosting source up) t.deliveries
          h.handed_over)
        (All-map (Repaid t.orders t.sites) (Repaid t.orders t.sites) f
          (λ d. flags-Repaid t.orders t.sites now id d domain hosting source) t.deliveries h.repaid)

  -- Money goes back when the order has been called off.
  pub stamp_refunded-Consistent :
      (now : ℕ) (p : Delivery → Bool) (delivery : Delivery)
      → find p t.deliveries ≡ some delivery
      → Delivers t.orders t.sites avbruten delivery
      → Consistent (perform now (stamp_refunded delivery.id) t)
  unfolding perform
  stamp_refunded-Consistent now p delivery found off =
      let f = with_refund now delivery.id in
      let same = only_row (λ (d : Delivery). d.id) p t.deliveries delivery h.delivery_keys found in
      rows_moved f (λ d. ground arith)
        (All-map (HandedOver t.orders t.sites) (HandedOver t.orders t.sites) f
          (λ d. refund-HandedOver t.orders t.sites now delivery.id d) t.deliveries h.handed_over)
        (All-map _ (Repaid t.orders t.sites) f
          (λ d both. refund-Repaid t.orders t.sites now delivery d off both.0 both.1) t.deliveries
          (All-both _ (Repaid t.orders t.sites) t.deliveries same h.repaid))
