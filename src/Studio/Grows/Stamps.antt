-- ===== src/Studio/Grows/Stamps.antt =====
-- The UPDATE statements that stamp and flag let the tables grow, whichever rows they hit.
use hemsidor.Prelude.{
  ℕ, Bool, refl, Option, none, some, List, ◌==◌, ◌||◌, arith, Bool-cases, inl, inr, if◌then◌else◌,
}
use hemsidor.Studio.Models.{Site, Delivery}
use hemsidor.Studio.Tables.{
  Tables, Column, offered_at, accepted_at, stamp_delivery, stamp_published, transfer_flags,
  stamp_refunded, with_stamp, with_published, with_flags, with_refund, perform, first_time, stamped,
  delivers,
}
use hemsidor.Studio.Grows.{Kept, Raised, SiteGrows, DeliveryGrows, Grows}
use hemsidor.Studio.Grows.Rows.{
  SiteGrows-refl, DeliveryGrows-refl, Extends-map, Grows-sites, Grows-deliveries, Kept-refl,
}

Kept-first_time : (now : ℕ) (o : Option ℕ) → Kept o (first_time now o)
Kept-first_time now none = tt
Kept-first_time now (some t) = refl

Raised-or : (a b : Bool) → Raised a (a || b)
Raised-or a b h = ground arith

-- Only the moments of a delivery change.
moments-grow :
    (d : Delivery) (offered accepted refunded : Option ℕ)
    → Kept d.offered_at offered
    → Kept d.accepted_at accepted
    → Kept d.refunded_at refunded
    → DeliveryGrows d
        (record d { offered_at = offered; accepted_at = accepted; refunded_at = refunded })
moments-grow d offered accepted refunded p q r = record {
  facts = refl;
  offered = p;
  accepted = q;
  refunded = r;
  domain = λ h. h;
  hosting = λ h. h;
  source = λ h. h;
}

stamped-grows : (column : Column) (now : ℕ) (d : Delivery) → DeliveryGrows d (stamped column now d)
stamped-grows offered_at now d =
    moments-grow d (first_time now d.offered_at) d.accepted_at d.refunded_at
      (Kept-first_time now d.offered_at) (Kept-refl d.accepted_at) (Kept-refl d.refunded_at)
stamped-grows accepted_at now d =
    moments-grow d d.offered_at (first_time now d.accepted_at) d.refunded_at
      (Kept-refl d.offered_at) (Kept-first_time now d.accepted_at) (Kept-refl d.refunded_at)

module _ (b : Bool) where
  if_delivery-grows : (d e : Delivery) → DeliveryGrows d e → DeliveryGrows d (if b then e else d)
  if_delivery-grows d e h = elim (Bool-cases b) [
    | inl yes_branch ↦ rw yes_branch h
    | inr no_branch ↦ rw no_branch (DeliveryGrows-refl d)
  ]

  if_site-grows : (d e : Site) → SiteGrows d e → SiteGrows d (if b then e else d)
  if_site-grows d e h = elim (Bool-cases b) [
    | inl yes_branch ↦ rw yes_branch h
    | inr no_branch ↦ rw no_branch (SiteGrows-refl d)
  ]

with_stamp-grows :
    (column : Column) (now : ℕ) (sites : List Site) (id : ℕ) (d : Delivery)
    → DeliveryGrows d (with_stamp column now sites id d)
with_stamp-grows column now sites id d =
    if_delivery-grows (delivers sites id d) d (stamped column now d) (stamped-grows column now d)

pub with_published-grows : (now id : ℕ) (s : Site) → SiteGrows s (with_published now id s)
with_published-grows now id s =
    if_site-grows (s.id == id) s (record s { published_at = first_time now s.published_at })
      (record { facts = refl; published = Kept-first_time now s.published_at })

with_refund-grows : (now id : ℕ) (d : Delivery) → DeliveryGrows d (with_refund now id d)
with_refund-grows now id d =
    if_delivery-grows (d.id == id) d (record d { refunded_at = first_time now d.refunded_at })
      (moments-grow d d.offered_at d.accepted_at (first_time now d.refunded_at)
        (Kept-refl d.offered_at) (Kept-refl d.accepted_at) (Kept-first_time now d.refunded_at))

flags-grow :
    (d : Delivery) (domain hosting source : Bool)
    → DeliveryGrows d (record d {
      domain_transferred = d.domain_transferred || domain;
      hosting_transferred = d.hosting_transferred || hosting;
      source_transferred = d.source_transferred || source;
    })
flags-grow d domain hosting source = record {
  facts = refl;
  offered = Kept-refl d.offered_at;
  accepted = Kept-refl d.accepted_at;
  refunded = Kept-refl d.refunded_at;
  domain = Raised-or d.domain_transferred domain;
  hosting = Raised-or d.hosting_transferred hosting;
  source = Raised-or d.source_transferred source;
}

with_flags-grows :
    (sites : List Site) (id : ℕ) (domain hosting source : Bool) (d : Delivery)
    → DeliveryGrows d (with_flags sites id domain hosting source d)
with_flags-grows sites id domain hosting source d =
    if_delivery-grows (delivers sites id d) d _ (flags-grow d domain hosting source)

-- The stamps and the flags.
pub stamp_delivery-Grows :
    (now : ℕ) (column : Column) (id : ℕ) (t : Tables)
    → Grows t (perform now (stamp_delivery column id) t)
unfolding perform
stamp_delivery-Grows now column id t = Grows-deliveries t _ (
    Extends-map DeliveryGrows (with_stamp column now t.sites id)
      (with_stamp-grows column now t.sites id) t.deliveries)

pub stamp_published-Grows :
    (now : ℕ) (id : ℕ) (t : Tables) → Grows t (perform now (stamp_published id) t)
unfolding perform
stamp_published-Grows now id t =
    Grows-sites t _
      (Extends-map SiteGrows (with_published now id) (with_published-grows now id) t.sites)

pub stamp_refunded-Grows :
    (now : ℕ) (id : ℕ) (t : Tables) → Grows t (perform now (stamp_refunded id) t)
unfolding perform
stamp_refunded-Grows now id t =
    Grows-deliveries t _
      (Extends-map DeliveryGrows (with_refund now id) (with_refund-grows now id) t.deliveries)

pub transfer_flags-Grows :
    (now id : ℕ) (domain hosting source : Bool) (t : Tables)
    → Grows t (perform now (transfer_flags id domain hosting source) t)
unfolding perform
transfer_flags-Grows now id domain hosting source t = Grows-deliveries t _ (
    Extends-map DeliveryGrows (with_flags t.sites id domain hosting source)
      (with_flags-grows t.sites id domain hosting source) t.deliveries)
