-- ===== src/Studio/Grows/Rows.antt =====
-- The row relations are preorders, and so are those on the tables.
use hemsidor.Prelude.{◌≡◌, refl, ap, ◌∙◌, Option, none, some, List, [], ◌∷◌, ◌++◌, map}
use hemsidor.Text.{Text}
use hemsidor.Studio.Models.{Order, Customer, Site, Delivery}
use hemsidor.Studio.Tables.{Tables}
use hemsidor.Studio.Grows.{
  Follows, stay, move, Kept, OrderGrows, SiteGrows, DeliveryGrows, Extends, Same, Grows,
}

pub Follows-trans : {a b d : Text} → Follows a b → Follows b d → Follows a d
Follows-trans stay q = q
Follows-trans (move s n e arrow p) q = move s n e arrow (Follows-trans p q)

pub Kept-refl {ℓ} : {A : Type ℓ} (a : Option A) → Kept a a
Kept-refl none = tt
Kept-refl (some a) = refl

Kept-trans {ℓ} : {A : Type ℓ} (a b d : Option A) → Kept a b → Kept b d → Kept a d
Kept-trans none b d p q = tt
Kept-trans (some a) none d p q = cc
Kept-trans (some a) (some b) d p q = q ∙ p

pub OrderGrows-refl : (x : Order) → OrderGrows x x
OrderGrows-refl x = record { facts = refl; follows = stay; linked = Kept-refl x.customer_id }

pub OrderGrows-trans : (x y z : Order) → OrderGrows x y → OrderGrows y z → OrderGrows x z
OrderGrows-trans x y z p q = record {
  facts =
      q.facts
      ∙ ap (λ (r : Order). record r { status = z.status; customer_id = z.customer_id }) p.facts;
  follows = Follows-trans p.follows q.follows;
  linked = Kept-trans x.customer_id y.customer_id z.customer_id p.linked q.linked;
}

pub SiteGrows-refl : (x : Site) → SiteGrows x x
SiteGrows-refl x = record { facts = refl; published = Kept-refl x.published_at }

pub SiteGrows-trans : (x y z : Site) → SiteGrows x y → SiteGrows y z → SiteGrows x z
SiteGrows-trans x y z p q = record {
  facts = q.facts ∙ ap (λ (r : Site). record r { published_at = z.published_at }) p.facts;
  published = Kept-trans x.published_at y.published_at z.published_at p.published q.published;
}

pub DeliveryGrows-refl : (x : Delivery) → DeliveryGrows x x
DeliveryGrows-refl x = record {
  facts = refl;
  offered = Kept-refl x.offered_at;
  accepted = Kept-refl x.accepted_at;
  refunded = Kept-refl x.refunded_at;
  domain = λ h. h;
  hosting = λ h. h;
  source = λ h. h;
}

pub DeliveryGrows-trans :
    (x y z : Delivery) → DeliveryGrows x y → DeliveryGrows y z → DeliveryGrows x z
DeliveryGrows-trans x y z p q = record {
  facts =
      q.facts
      ∙ ap
          (λ (r : Delivery). record r {
            offered_at = z.offered_at;
            accepted_at = z.accepted_at;
            domain_transferred = z.domain_transferred;
            hosting_transferred = z.hosting_transferred;
            source_transferred = z.source_transferred;
            refunded_at = z.refunded_at;
          })
          p.facts;
  offered = Kept-trans x.offered_at y.offered_at z.offered_at p.offered q.offered;
  accepted = Kept-trans x.accepted_at y.accepted_at z.accepted_at p.accepted q.accepted;
  refunded = Kept-trans x.refunded_at y.refunded_at z.refunded_at p.refunded q.refunded;
  domain = λ h. q.domain (p.domain h);
  hosting = λ h. q.hosting (p.hosting h);
  source = λ h. q.source (p.source h);
}

module _ {A : Type 0} (R : A → A → Type 0) where
  pub Extends-refl : ((x : A) → R x x) → (xs : List A) → Extends R xs xs
  Extends-refl r [] = tt
  Extends-refl r (x ∷ xs) = (r x, Extends-refl r xs)

  pub Extends-trans :
      ((x y z : A) → R x y → R y z → R x z)
      → (xs ys zs : List A) → Extends R xs ys
      → Extends R ys zs
      → Extends R xs zs
  Extends-trans r [] ys zs p q = tt
  Extends-trans r (x ∷ xs) [] zs p q = absurd p
  Extends-trans r (x ∷ xs) (y ∷ ys) [] p q = absurd q
  Extends-trans r (x ∷ xs) (y ∷ ys) (z ∷ zs) (p, ps) (q, qs) =
      (r x y z p q, Extends-trans r xs ys zs ps qs)

  pub Extends-map : (f : A → A) → ((x : A) → R x (f x)) → (xs : List A) → Extends R xs (map f xs)
  Extends-map f r [] = tt
  Extends-map f r (x ∷ xs) = (r x, Extends-map f r xs)

  pub Extends-append : ((x : A) → R x x) → (xs ys : List A) → Extends R xs (xs ++ ys)
  Extends-append r [] ys = tt
  Extends-append r (x ∷ xs) ys = (r x, Extends-append r xs ys)

pub Extends-mono :
    {A : Type 0} (R S : A → A → Type 0)
    → ((x y : A) → R x y → S x y)
    → (xs ys : List A) → Extends R xs ys
    → Extends S xs ys
Extends-mono R S h [] ys e = tt
Extends-mono R S h (x ∷ xs) [] e = absurd e
Extends-mono R S h (x ∷ xs) (y ∷ ys) (r, e) = (h x y r, Extends-mono R S h xs ys e)

pub Grows-refl : (t : Tables) → Grows t t
Grows-refl t = record {
  orders = Extends-refl OrderGrows OrderGrows-refl t.orders;
  ids = refl;
  customers = Extends-refl Same (λ x. refl) t.customers;
  domains = refl;
  sites = Extends-refl SiteGrows SiteGrows-refl t.sites;
  deliveries = Extends-refl DeliveryGrows DeliveryGrows-refl t.deliveries;
}

pub Grows-trans : (t u v : Tables) → Grows t u → Grows u v → Grows t v
Grows-trans t u v p q = record {
  orders = Extends-trans OrderGrows OrderGrows-trans t.orders u.orders v.orders p.orders q.orders;
  ids = q.ids ∙ p.ids;
  customers =
      Extends-trans Same (λ x y z a b. b ∙ a) t.customers u.customers v.customers p.customers
        q.customers;
  domains = q.domains ∙ p.domains;
  sites = Extends-trans SiteGrows SiteGrows-trans t.sites u.sites v.sites p.sites q.sites;
  deliveries =
      Extends-trans DeliveryGrows DeliveryGrows-trans t.deliveries u.deliveries v.deliveries
        p.deliveries q.deliveries;
}

-- Tables of which one list changed.
module _ (t : Tables) where
  pub Grows-orders :
      (os : List Order)
      → Extends OrderGrows t.orders os
      → map (λ row. row.id) os ≡ map (λ row. row.id) t.orders
      → Grows t (record t { orders = os })
  Grows-orders os h ids = record {
    orders = h;
    ids = ids;
    customers = Extends-refl Same (λ x. refl) t.customers;
    domains = refl;
    sites = Extends-refl SiteGrows SiteGrows-refl t.sites;
    deliveries = Extends-refl DeliveryGrows DeliveryGrows-refl t.deliveries;
  }

  pub Grows-customers : (c : Customer) → Grows t (record t { customers = t.customers ++ c ∷ [] })
  Grows-customers c = record {
    orders = Extends-refl OrderGrows OrderGrows-refl t.orders;
    ids = refl;
    customers = Extends-append Same (λ x. refl) t.customers (c ∷ []);
    domains = refl;
    sites = Extends-refl SiteGrows SiteGrows-refl t.sites;
    deliveries = Extends-refl DeliveryGrows DeliveryGrows-refl t.deliveries;
  }

  pub Grows-sites :
      (ss : List Site) → Extends SiteGrows t.sites ss → Grows t (record t { sites = ss })
  Grows-sites ss h = record {
    orders = Extends-refl OrderGrows OrderGrows-refl t.orders;
    ids = refl;
    customers = Extends-refl Same (λ x. refl) t.customers;
    domains = refl;
    sites = h;
    deliveries = Extends-refl DeliveryGrows DeliveryGrows-refl t.deliveries;
  }

  pub Grows-deliveries :
      (ds : List Delivery)
      → Extends DeliveryGrows t.deliveries ds
      → Grows t (record t { deliveries = ds })
  Grows-deliveries ds h = record {
    orders = Extends-refl OrderGrows OrderGrows-refl t.orders;
    ids = refl;
    customers = Extends-refl Same (λ x. refl) t.customers;
    domains = refl;
    sites = Extends-refl SiteGrows SiteGrows-refl t.sites;
    deliveries = h;
  }
