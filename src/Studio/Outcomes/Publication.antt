-- ===== src/Studio/Outcomes/Publication.antt =====
-- What publishing a site and handing it over has found and done.
use hemsidor.Prelude.{ℕ, Bool, true, ◌≡◌, refl, Option, some, ◌++◌, find, ◌==◌, ok, err}
use hemsidor.Text.{Text}
use hemsidor.Core.Status
use hemsidor.Core.Status.{
  OrderStatus, from_slug, can_transition_to, status_eq, avbruten, publicerad,
}
use hemsidor.Notify.Message.{site_published}
use hemsidor.Studio.Models.{Order, Site}
use hemsidor.Studio.Tables.{is_id, set_status, stamp_published, transfer_flags}
use hemsidor.Studio.Backend.{Orm, IsOrm}
use hemsidor.Handover.Cell.{Cell}
use hemsidor.Studio.Monad.{World, Mail, Refusal, handed}
use hemsidor.Studio.Monad.Ends.{
  Ends, Ends-require, Ends-write, Ends-guard, Ends-attempt, Ends-notify, Ends-ok, Ends-err,
}
use hemsidor.Studio.Monad.Calls.{
  Ends-load_order, Ends-site_for, Ends-domain_name, Ends-sign_claims, domain_read,
}
use hemsidor.Studio.Signing.{Artefacts, Signed, sign}
use hemsidor.Studio.Publication.{publish_one, non_blank}
use hemsidor.Studio.Outcomes.{delivered-outbox, delivered-db, delivered-cell, Quiet}

module _ (o : Orm) (laws : IsOrm o) (c : Cell) where
  -- The artefacts that are on record for a site.
  abbrev pub artefacts_of : Site → o.Db → Artefacts
  artefacts_of site d = record {
    domain = domain_read o site.domain_id d;
    hosting = non_blank site.hosting_ref;
    source = non_blank site.repo_url;
  }

  pub record Published (mail : Option Mail) (signing : Bool) (id : ℕ) (w v : World o c)
      : Type 0 where
    pub order : Order
    pub current : OrderStatus
    pub site : Site
    pub live_url : Text
    pub customer_id : ℕ
    pub found : find (λ row. row.id == id) (o.tables w.db).orders ≡ some order
    pub was : from_slug order.status ≡ some current
    pub may : can_transition_to current publicerad ≡ true
    pub of_order : find (λ s. is_id s.order_id id) (o.tables w.db).sites ≡ some site
    pub live : non_blank site.live_url ≡ some live_url
    pub linked : order.customer_id ≡ some customer_id
    pub saved : (o.execute (set_status (Status.slug publicerad) order.id) w.db).0 ≡ ok tt
    pub told :
        v.outbox
        ≡ w.outbox
          ++ handed mail (λ m. site_published order.company live_url order.email m.from m.studio)
    -- The flags and the claims are those that signing the artefacts on record answers with.
    pub signed : Signed
    pub earned : signed ≡ (sign c signing customer_id (artefacts_of site w.db) w.cell).0
    pub signed_log : v.cell ≡ (sign c signing customer_id (artefacts_of site w.db) w.cell).1
    pub written :
        v.db
        ≡ (o.execute
            (transfer_flags order.id signed.domain signed.hosting signed.source)
            (o.execute
              (stamp_published site.id)
              (o.execute (set_status (Status.slug publicerad) order.id) w.db).1).1).1

  abbrev Untold : World o c → World o c → Type 0
  Untold w v = Quiet w v × (v.cell ≡ w.cell)

  publish_one-Ends :
      (mail : Option Mail) (signing : Bool) (id : ℕ) (w : World o c)
      → Ends (Untold w) (λ _. Published mail signing id w) (publish_one o c mail signing id) w
  unfolding publish_one
  publish_one-Ends mail signing id w =
      Ends-load_order laws id _ w (refl, refl)
        λ order found.
          Ends-require _ _ _ w (refl, refl)
            λ current was.
              Ends-guard _ _ _ w (refl, refl)
                λ may.
                  Ends-site_for laws id _ w (refl, refl)
                    λ site of_order.
                      Ends-require _ _ _ w (refl, refl)
                        λ live_url live.
                          Ends-require _ _ _ w (refl, refl)
                            λ customer_id linked. Ends-domain_name site.domain_id _ w (
                              Ends-write _ _ _ w (λ _ _. (refl, refl))
                                λ answer saved. Ends-attempt _ _ _ (
                                  Ends-sign_claims signing customer_id _ _ _ (
                                    Ends-attempt _ _ _ (
                                      Ends-notify mail _ _ (record {
                                        order = order;
                                        current = current;
                                        site = site;
                                        live_url = live_url;
                                        customer_id = customer_id;
                                        found = found;
                                        was = was;
                                        may = may;
                                        of_order = of_order;
                                        live = live;
                                        linked = linked;
                                        saved = saved;
                                        told = delivered-outbox mail _ _;
                                        signed =
                                            (sign c signing customer_id (artefacts_of site w.db)
                                              w.cell).0;
                                        earned = refl;
                                        signed_log = delivered-cell mail _ _;
                                        written = delivered-db mail _ _;
                                      })))))

  -- With a database that keeps to IsOrm, a publication that is refused has handed no message to
  -- the mailer and signed nothing.
  publish_one-Untold :
      (mail : Option Mail) (signing : Bool) (id : ℕ) (w : World o c) (why : Refusal)
      → (publish_one o c mail signing id w).0 ≡ err why
      → ((publish_one o c mail signing id w).1.outbox ≡ w.outbox)
        × ((publish_one o c mail signing id w).1.cell ≡ w.cell)
  publish_one-Untold mail signing id w why h =
      Ends-err _ w why (publish_one-Ends mail signing id w) h

  -- With a database that keeps to IsOrm, a publication that succeeds: the order was found with a
  -- status that may become publicerad, has a customer and a site whose address is not blank; the
  -- status was saved, then the moment and the transfer flags were tried, and nothing else was
  -- written; the flags and the cell afterwards are those of signing the artefacts on record; and
  -- the one message handed to the mailer, where there is one, carries that address.
  pub publish_one-Published :
      (mail : Option Mail) (signing : Bool) (id : ℕ) (w : World o c)
      → (publish_one o c mail signing id w).0 ≡ ok tt
      → Published mail signing id w (publish_one o c mail signing id w).1
  publish_one-Published mail signing id w h = Ends-ok _ w tt (publish_one-Ends mail signing id w) h
