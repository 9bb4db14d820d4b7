-- ===== src/Studio/Monad/Calls.antt =====
-- The rules for the helpers that the studio's actions share.
use hemsidor.Prelude.{ℕ, ◌≡◌, refl, sym, ◌∙◌, Bool, Option, none, some, find, ◌==◌, ap, unwrap_or}
use mathlib.Core.Path.{subst}
use hemsidor.Text.{Text}
use hemsidor.Studio.Models.{Order, Site, Delivery}
use hemsidor.Studio.Tables.{is_id}
use hemsidor.Studio.Backend.{Orm, IsOrm}
use hemsidor.Handover.Cell.{Cell}
use hemsidor.Studio.Monad.{World, Action, read_or, pure, ◌>>=◌}
use hemsidor.Studio.Monad.Ends.{Ends, Ends-bind, Ends-require, Ends-read, Ends-last_require}
use hemsidor.Studio.Workflow.{load_order}
use hemsidor.Studio.Accept.{moment}
use hemsidor.Studio.Signing.{Artefacts, Signed, sign}
use hemsidor.Studio.Publication.{site_for, domain_name, sign_claims}
use hemsidor.Studio.Cancellation.{delivery_for}

module _ {o : Orm} (laws : IsOrm o) {c : Cell} {P : World o c → Type 0} {B : Type 0}
    {R : B → World o c → Type 0} where
  -- A helper that finds something and leaves the world as it is.
  finds :
      {A : Type 0} (F : A → Type 0) (m : Action o c A) (f : A → Action o c B) (w : World o c)
      → Ends P (λ a v. (v ≡ w) × F a) m w
      → ((a : A) → F a → Ends P R (f a) w)
      → Ends P R (m >>= f) w
  finds F m f w h k = Ends-bind m f w h (λ a v q. subst (Ends P R (f a)) (sym q.0) (k a q.1))

  pub Ends-load_order :
      (id : ℕ) (f : Order → Action o c B) (w : World o c)
      → P w
      → ((order : Order)
          → find (λ row. row.id == id) (o.tables w.db).orders ≡ some order
          → Ends P R (f order) w)
      → Ends P R (load_order o c id >>= f) w
  unfolding load_order
  Ends-load_order id f w p k =
      finds (λ order. find (λ row. row.id == id) (o.tables w.db).orders ≡ some order) _ f w
        (Ends-read _ _ _ w p (λ row e.
          Ends-last_require row _ w p
            (λ order e1. (refl, sym (laws.find_order_ok id w.db row e) ∙ e1))))
        k

  pub Ends-site_for :
      (id : ℕ) (f : Site → Action o c B) (w : World o c)
      → P w
      → ((site : Site)
          → find (λ s. is_id s.order_id id) (o.tables w.db).sites ≡ some site
          → Ends P R (f site) w)
      → Ends P R (site_for o c id >>= f) w
  unfolding site_for
  Ends-site_for id f w p k =
      finds (λ site. find (λ s. is_id s.order_id id) (o.tables w.db).sites ≡ some site) _ f w
        (Ends-read _ _ _ w p (λ rows e.
          Ends-last_require (find (λ s. is_id s.order_id id) rows) _ w p (λ site e1. (
            refl,
            ap (find (λ s. is_id s.order_id id)) (sym (laws.all_sites_ok w.db rows e)) ∙ e1,
          ))))
        k

  pub Ends-delivery_for :
      (id : ℕ) (f : Delivery → Action o c B) (w : World o c)
      → P w
      → ((site : Site) (d : Delivery)
          → find (λ s. is_id s.order_id id) (o.tables w.db).sites ≡ some site
          → find (λ d. is_id d.site_id site.id) (o.tables w.db).deliveries ≡ some d
          → Ends P R (f d) w)
      → Ends P R (delivery_for o c id >>= f) w
  unfolding delivery_for
  Ends-delivery_for id f w p k =
      finds
        (λ d.
          (site : Site) × (find (λ s. is_id s.order_id id) (o.tables w.db).sites ≡ some site)
          × (find (λ d. is_id d.site_id site.id) (o.tables w.db).deliveries ≡ some d))
        _ f w
        (Ends-read _ _ _ w p (λ rows e.
          Ends-require (find (λ s. is_id s.order_id id) rows) _ _ w p (λ site e1.
            Ends-read _ _ _ w p (λ ds e2.
              Ends-last_require (find (λ d. is_id d.site_id site.id) ds) _ w p (λ d e3. (
                refl,
                (
                  site,
                  ap (find (λ s. is_id s.order_id id)) (sym (laws.all_sites_ok w.db rows e)) ∙ e1,
                  ap (find (λ d. is_id d.site_id site.id)) (sym (laws.all_deliveries_ok w.db ds e2))
                      ∙ e3,
                ),
              ))))))
        (λ d q. k q.0 d q.1 q.2)

-- The name of a site's domain: none where it has no domain or the query failed.
module _ (o : Orm) where
  abbrev pub domain_read : Option ℕ → o.Db → Option Text
  domain_read none d = none
  domain_read (some id) d = unwrap_or none (o.domain_name id d)

module _ {o : Orm} {c : Cell} {P : World o c → Type 0} {B : Type 0}
    {R : B → World o c → Type 0} where
  pub Ends-domain_name :
      (id : Option ℕ) (f : Option Text → Action o c B) (w : World o c)
      → Ends P R (f (domain_read o id w.db)) w
      → Ends P R (domain_name o c id >>= f) w
  unfolding domain_name read_or pure ◌>>=◌
  Ends-domain_name none f w k = record { at = k.at }
  Ends-domain_name (some id) f w k = record { at = k.at }

  pub Ends-moment :
      (f : ℕ → Action o c B) (w : World o c)
      → Ends P R (f (o.now w.db)) w
      → Ends P R (moment o c >>= f) w
  unfolding moment ◌>>=◌
  Ends-moment f w k = record { at = k.at }

  pub Ends-sign_claims :
      (signing : Bool) (customer_id : ℕ) (artefacts : Artefacts) (f : Signed → Action o c B)
      (w : World o c)
      → Ends P R
          (f (sign c signing customer_id artefacts w.cell).0)
          (record w { cell = (sign c signing customer_id artefacts w.cell).1 })
      → Ends P R (sign_claims o c signing customer_id artefacts >>= f) w
  unfolding sign_claims ◌>>=◌
  Ends-sign_claims signing customer_id artefacts f w k = record { at = k.at }
