-- ===== src/Studio/Monad/Keeps.antt =====
-- What every write of the back office keeps, every action keeps, whether it succeeds or is refused:
-- one rule for each way to build an action.
use hemsidor.Prelude.{◌≡◌, refl, is_some, ℕ, Bool, true, false, Option, none, some, Result, ok, err}
use hemsidor.Text.{Text}
use hemsidor.Core.Status.{OrderStatus, slug, from_slug}
use hemsidor.Core.Status.Laws.{from_slug-slug}
use hemsidor.Notify.Message.{Message}
use hemsidor.Studio.Models.{Customer, Site, Delivery}
use hemsidor.Studio.Tables.{
  Update, Column, set_status, stamp_delivery, link_customer, stamp_published, transfer_flags,
  stamp_refunded,
}
use hemsidor.Studio.Backend.{Orm}
use hemsidor.Handover.Cell.{Cell}
use hemsidor.Studio.Monad.{
  World, Action, Mail, Refusal, continue, pure, require, read, read_or, write, attempt, notify,
  guard, ◌>>=◌,
}
use hemsidor.Studio.Workflow.{load_order, stamp}
use hemsidor.Studio.Accept.{moment}
use hemsidor.Studio.Signing.{Artefacts}
use hemsidor.Studio.Publication.{site_for, domain_name, sign_claims}
use hemsidor.Studio.Cancellation.{delivery_for}

-- A status is written as one of the five that can be read again.
abbrev pub Readable : Text → Type 0
Readable status = is_some (from_slug status) ≡ true

abbrev pub Spelled : Update → Type 0
Spelled (set_status status id) = Readable status
Spelled (stamp_delivery column id) = Unit
Spelled (link_customer customer_id id) = Unit
Spelled (stamp_published id) = Unit
Spelled (transfer_flags id domain hosting source) = Unit
Spelled (stamp_refunded id) = Unit

pub slug-Readable : (s : OrderStatus) → Readable (slug s)
slug-Readable s = rw (from_slug-slug s) refl

-- A preorder on what the database holds that each statement respects, accepted or not.
pub record Guarantees (o : Orm) (R : o.Db → o.Db → Type 0) : Type 0 where
  pub stays : (d : o.Db) → R d d
  pub goes_on : (a b d : o.Db) → R a b → R b d → R a d
  pub creates_customer : (c : Customer) (d : o.Db) → R d (o.create_customer c d).1
  pub creates_site : (s : Site) (d : o.Db) → R d (o.create_site s d).1
  pub creates_delivery : (r : Delivery) (d : o.Db) → R d (o.create_delivery r d).1
  pub executes : (u : Update) (d : o.Db) → Spelled u → R d (o.execute u d).1

module _ (o : Orm) {c : Cell} (R : o.Db → o.Db → Type 0) where
  pub record Keeps {A : Type 0} (m : Action o c A) : Type 0 where
    pub at : (w : World o c) → R w.db (m w).1.db

module _ {o : Orm} {c : Cell} {R : o.Db → o.Db → Type 0} (g : Guarantees o R) where
  module _ {A : Type 0} where
    pub Keeps-pure : (a : A) → Keeps o {c = c} R (pure a)
    unfolding pure
    Keeps-pure a = record { at = λ w. g.stays w.db }

    pub Keeps-require : (found : Option A) (why : Refusal) → Keeps o {c = c} R (require found why)
    unfolding require
    Keeps-require none why = record { at = λ w. g.stays w.db }
    Keeps-require (some a) why = record { at = λ w. g.stays w.db }

    pub Keeps-read :
        (query : o.Db → Result Text A) (why : Text → Refusal) → Keeps o {c = c} R (read query why)
    unfolding read
    Keeps-read query why = record { at = λ w. g.stays w.db }

    pub Keeps-read_or :
        (default : A) (query : o.Db → Result Text A) → Keeps o {c = c} R (read_or default query)
    unfolding read_or
    Keeps-read_or default query = record { at = λ w. g.stays w.db }

  pub Keeps-guard : (test : Bool) (why : Refusal) → Keeps o {c = c} R (guard test why)
  unfolding guard
  Keeps-guard true why = record { at = λ w. g.stays w.db }
  Keeps-guard false why = record { at = λ w. g.stays w.db }

  pub Keeps-notify :
      (mail : Option Mail) (message : Mail → Message) → Keeps o {c = c} R (notify mail message)
  unfolding notify
  Keeps-notify none message = record { at = λ w. g.stays w.db }
  Keeps-notify (some mail) message = record { at = λ w. g.stays w.db }

  pub Keeps-execute :
      (u : Update) (why : Text → Refusal) → Spelled u → Keeps o {c = c} R (write (o.execute u) why)
  unfolding write
  Keeps-execute u why h = record { at = λ w. g.executes u w.db h }

  pub Keeps-set_status :
      (s : OrderStatus) (id : ℕ) (why : Text → Refusal)
      → Keeps o {c = c} R (write (o.execute (set_status (slug s) id)) why)
  Keeps-set_status s id why = Keeps-execute (set_status (slug s) id) why (slug-Readable s)

  pub Keeps-attempt : (u : Update) → Spelled u → Keeps o {c = c} R (attempt (o.execute u))
  unfolding attempt
  Keeps-attempt u h = record { at = λ w. g.executes u w.db h }

  pub Keeps-create_customer :
      (r : Customer) (why : Text → Refusal) → Keeps o {c = c} R (write (o.create_customer r) why)
  unfolding write
  Keeps-create_customer r why = record { at = λ w. g.creates_customer r w.db }

  pub Keeps-create_site :
      (r : Site) (why : Text → Refusal) → Keeps o {c = c} R (write (o.create_site r) why)
  unfolding write
  Keeps-create_site r why = record { at = λ w. g.creates_site r w.db }

  pub Keeps-create_delivery :
      (r : Delivery) (why : Text → Refusal) → Keeps o {c = c} R (write (o.create_delivery r) why)
  unfolding write
  Keeps-create_delivery r why = record { at = λ w. g.creates_delivery r w.db }

  module _ {A B : Type 0} where
    continued :
        (f : A → Action o c B) (r : Result Refusal A) (d : o.Db) (w : World o c)
        → ((a : A) → Keeps o R (f a))
        → R d w.db
        → R d (continue f r w).1.db
    continued f (ok a) d w k before = g.goes_on d w.db _ before ((k a).at w)
    continued f (err why) d w k before = before

    pub Keeps-bind :
        (m : Action o c A) (f : A → Action o c B)
        → Keeps o R m
        → ((a : A) → Keeps o R (f a))
        → Keeps o R (m >>= f)
    unfolding ◌>>=◌
    Keeps-bind m f km kf = record { at = λ w. continued f (m w).0 w.db (m w).1 kf (km.at w) }

  -- The helpers that the actions share.
  pub Keeps-load_order : (id : ℕ) → Keeps o R (load_order o c id)
  unfolding load_order
  Keeps-load_order id = Keeps-bind _ _ (Keeps-read _ _) (λ found. Keeps-require found _)

  pub Keeps-stamp : (column : Option Column) (id : ℕ) → Keeps o R (stamp o c column id)
  unfolding stamp
  Keeps-stamp none id = Keeps-pure tt
  Keeps-stamp (some column) id = Keeps-attempt _ tt

  pub Keeps-moment : Keeps o R (moment o c)
  unfolding moment
  Keeps-moment = record { at = λ w. g.stays w.db }

  pub Keeps-site_for : (id : ℕ) → Keeps o R (site_for o c id)
  unfolding site_for
  Keeps-site_for id = Keeps-bind _ _ (Keeps-read _ _) (λ sites. Keeps-require _ _)

  pub Keeps-delivery_for : (id : ℕ) → Keeps o R (delivery_for o c id)
  unfolding delivery_for
  Keeps-delivery_for id = Keeps-bind _ _ (Keeps-read _ _) λ sites.
      Keeps-bind _ _ (Keeps-require _ _)
        λ site. Keeps-bind _ _ (Keeps-read _ _) (λ deliveries. Keeps-require _ _)

  pub Keeps-domain_name : (id : Option ℕ) → Keeps o R (domain_name o c id)
  unfolding domain_name
  Keeps-domain_name none = Keeps-pure none
  Keeps-domain_name (some id) = Keeps-read_or none _

  pub Keeps-sign_claims :
      (signing : Bool) (customer_id : ℕ) (artefacts : Artefacts)
      → Keeps o R (sign_claims o c signing customer_id artefacts)
  unfolding sign_claims
  Keeps-sign_claims signing customer_id artefacts = record { at = λ w. g.stays w.db }
