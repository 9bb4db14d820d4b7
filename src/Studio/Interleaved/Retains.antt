-- ===== src/Studio/Interleaved/Retains.antt =====
-- What survives whatever the operators do at once: no row disappears or is renumbered, and what was
-- typed, stamped, flagged or linked stays. The arrows of the status diagram are not among it.
use hemsidor.Prelude.{
  ℕ, ◌≡◌, refl, sym, ap, ◌∙◌, inl, inr, Option, none, some, map, is_some, ◌==◌, Bool-cases,
  Result-cases, arith,
}
use mathlib.Core.Path.{subst}
use hemsidor.Text.{Text}
use hemsidor.Studio.Models.{Order}
use hemsidor.Studio.Tables.{
  Tables, Update, set_status, stamp_delivery, link_customer, stamp_published, transfer_flags,
  stamp_refunded, with_status, with_customer, perform,
}
use hemsidor.Studio.Backend.{Orm, IsOrm}
use hemsidor.Studio.Monad.Keeps.{Readable, slug-Readable, Spelled, Guarantees}
use hemsidor.Studio.Grows.{
  Follows, stay, move, Kept, Raised, OrderGrows, SiteGrows, DeliveryGrows, Extends, Same, Grows,
}
use hemsidor.Studio.Grows.Rows.{
  Grows-refl, Extends-refl, Extends-trans, Extends-map, Extends-mono, SiteGrows-refl,
  SiteGrows-trans, DeliveryGrows-refl, DeliveryGrows-trans,
}
use hemsidor.Studio.Grows.Stamps.{
  stamp_delivery-Grows, stamp_published-Grows, stamp_refunded-Grows, transfer_flags-Grows,
}
use hemsidor.Studio.Grows.Writes.{
  create_customer-Inserted, create_site-Inserted, create_delivery-Inserted,
}

pub record OrderRetains (x y : Order) : Type 0 where
  pub facts : y ≡ record x { status = y.status; customer_id = y.customer_id }
  pub readable : Readable x.status → Readable y.status
  pub linked : Raised (is_some x.customer_id) (is_some y.customer_id)

pub record Retains (t u : Tables) : Type 0 where
  pub orders : Extends OrderRetains t.orders u.orders
  pub customers : Extends Same t.customers u.customers
  pub domains : Extends Same t.domains u.domains
  pub sites : Extends SiteGrows t.sites u.sites
  pub deliveries : Extends DeliveryGrows t.deliveries u.deliveries

OrderRetains-refl : (x : Order) → OrderRetains x x
OrderRetains-refl x = record { facts = refl; readable = λ h. h; linked = λ h. h }

OrderRetains-trans : (x y z : Order) → OrderRetains x y → OrderRetains y z → OrderRetains x z
OrderRetains-trans x y z p q = record {
  facts =
      q.facts
      ∙ ap (λ (r : Order). record r { status = z.status; customer_id = z.customer_id }) p.facts;
  readable = λ h. q.readable (p.readable h);
  linked = λ h. q.linked (p.linked h);
}

Retains-refl : (t : Tables) → Retains t t
Retains-refl t = record {
  orders = Extends-refl OrderRetains OrderRetains-refl t.orders;
  customers = Extends-refl Same (λ x. refl) t.customers;
  domains = Extends-refl Same (λ x. refl) t.domains;
  sites = Extends-refl SiteGrows SiteGrows-refl t.sites;
  deliveries = Extends-refl DeliveryGrows DeliveryGrows-refl t.deliveries;
}

Retains-trans : (t u v : Tables) → Retains t u → Retains u v → Retains t v
Retains-trans t u v p q = record {
  orders =
      Extends-trans OrderRetains OrderRetains-trans t.orders u.orders v.orders p.orders q.orders;
  customers =
      Extends-trans Same (λ x y z a b. b ∙ a) t.customers u.customers v.customers p.customers
        q.customers;
  domains =
      Extends-trans Same (λ x y z a b. b ∙ a) t.domains u.domains v.domains p.domains q.domains;
  sites = Extends-trans SiteGrows SiteGrows-trans t.sites u.sites v.sites p.sites q.sites;
  deliveries =
      Extends-trans DeliveryGrows DeliveryGrows-trans t.deliveries u.deliveries v.deliveries
        p.deliveries q.deliveries;
}

pub Follows-Readable : {a b : Text} → Follows a b → Readable a → Readable b
Follows-Readable stay h = h
Follows-Readable (move s n e arrow rest) h = Follows-Readable rest (slug-Readable n)

Kept-Raised : (a b : Option ℕ) → Kept a b → Raised (is_some a) (is_some b)
Kept-Raised none b h e = ground arith
Kept-Raised (some a) b h e = rw h refl

OrderGrows-Retains : (x y : Order) → OrderGrows x y → OrderRetains x y
OrderGrows-Retains x y g = record {
  facts = g.facts;
  readable = Follows-Readable g.follows;
  linked = Kept-Raised x.customer_id y.customer_id g.linked;
}

-- Tables that grow retain; the converse fails, for a status may leave the diagram.
Grows-Retains : (t u : Tables) → Grows t u → Retains t u
Grows-Retains t u g = record {
  orders = Extends-mono OrderGrows OrderRetains OrderGrows-Retains t.orders u.orders g.orders;
  customers = g.customers;
  domains =
      subst (Extends Same t.domains) (sym g.domains) (Extends-refl Same (λ x. refl) t.domains);
  sites = g.sites;
  deliveries = g.deliveries;
}

-- The two statements that write to `orders`, whichever row they hit.
with_status-retains :
    (status : Text) (id : ℕ)
    → Readable status
    → (x : Order) → OrderRetains x (with_status status id x)
with_status-retains status id h x = elim (Bool-cases (x.id == id)) [
  | inl here ↦ rw here (record { facts = refl; readable = λ was. h; linked = λ e. e })
  | inr other ↦ rw other (OrderRetains-refl x)
]

with_customer-retains : (n id : ℕ) (x : Order) → OrderRetains x (with_customer n id x)
with_customer-retains n id x = elim (Bool-cases (x.id == id)) [
  | inl here ↦ rw here (record { facts = refl; readable = λ h. h; linked = λ e. refl })
  | inr other ↦ rw other (OrderRetains-refl x)
]

Retains-orders :
    (t : Tables) (f : Order → Order)
    → ((x : Order) → OrderRetains x (f x))
    → Retains t (record t { orders = map f t.orders })
Retains-orders t f h = record {
  orders = Extends-map OrderRetains f h t.orders;
  customers = Extends-refl Same (λ x. refl) t.customers;
  domains = Extends-refl Same (λ x. refl) t.domains;
  sites = Extends-refl SiteGrows SiteGrows-refl t.sites;
  deliveries = Extends-refl DeliveryGrows DeliveryGrows-refl t.deliveries;
}

-- No UPDATE needs to know what the row held.
perform-Retains : (now : ℕ) (u : Update) (t : Tables) → Spelled u → Retains t (perform now u t)
unfolding perform
perform-Retains now (set_status status id) t h =
    Retains-orders t (with_status status id) (with_status-retains status id h)
perform-Retains now (link_customer n id) t h =
    Retains-orders t (with_customer n id) (with_customer-retains n id)
perform-Retains now (stamp_delivery column id) t h =
    Grows-Retains t _ (stamp_delivery-Grows now column id t)
perform-Retains now (stamp_published id) t h = Grows-Retains t _ (stamp_published-Grows now id t)
perform-Retains now (transfer_flags id domain hosting source) t h =
    Grows-Retains t _ (transfer_flags-Grows now id domain hosting source t)
perform-Retains now (stamp_refunded id) t h = Grows-Retains t _ (stamp_refunded-Grows now id t)

module _ (o : Orm) (laws : IsOrm o) where
  execute-Retains :
      (u : Update) (d : o.Db) → Spelled u → Retains (o.tables d) (o.tables (o.execute u d).1)
  execute-Retains u d h = elim (Result-cases (o.execute u d).0) [
    | inl (tt, e) ↦
        subst (Retains (o.tables d)) (sym (laws.execute_ok u d e))
          (perform-Retains (o.now d) u (o.tables d) h)
    | inr (why, e) ↦
        subst (Retains (o.tables d)) (sym (laws.execute_err u d why e)) (Retains-refl (o.tables d))
  ]

  -- The statements of a database that keeps to IsOrm.
  pub statements-Retains : Guarantees o (λ d e. Retains (o.tables d) (o.tables e))
  statements-Retains = record {
    stays = λ d. Retains-refl (o.tables d);
    goes_on = λ a b d p q. Retains-trans (o.tables a) (o.tables b) (o.tables d) p q;
    creates_customer = λ c d.
        Grows-Retains (o.tables d) _
          (create_customer-Inserted o laws (o.tables d) c d
            (record { grown = Grows-refl (o.tables d); orders = refl })).grown;
    creates_site = λ s d.
        Grows-Retains (o.tables d) _
          (create_site-Inserted o laws (o.tables d) s d
            (record { grown = Grows-refl (o.tables d); orders = refl })).grown;
    creates_delivery = λ r d.
        Grows-Retains (o.tables d) _
          (create_delivery-Inserted o laws (o.tables d) r d
            (record { grown = Grows-refl (o.tables d); orders = refl })).grown;
    executes = λ u d h. execute-Retains u d h;
  }
