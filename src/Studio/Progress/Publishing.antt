-- ===== src/Studio/Progress/Publishing.antt =====
-- When a publication succeeds.
use hemsidor.Prelude.{
  ℕ, Bool, true, ◌≡◌, ◌↔◌, refl, ap, ◌∙◌, inl, inr, Option, some, find, ◌==◌, ok, Option-cases,
}
use hemsidor.Text.{Text}
use hemsidor.Core.Status
use hemsidor.Core.Status.{OrderStatus, publicerad, from_slug, can_transition_to}
use hemsidor.Studio.Models.{Order, Site}
use hemsidor.Studio.Tables.{Tables, is_id, set_status}
use hemsidor.Studio.Backend.{Orm, IsOrm}
use hemsidor.Handover.Cell.{Cell}
use hemsidor.Studio.Monad.{
  World, Mail, pure, read, read_or, require, write, attempt, notify, guard, ◌>>=◌,
}
use hemsidor.Studio.Workflow.{load_order}
use hemsidor.Studio.Publication.{publish_one, non_blank, site_for, domain_name, sign_claims}
use hemsidor.Studio.Outcomes.Publication.{publish_one-Published}
use hemsidor.Studio.Progress.{Answers}

-- The order may be published, has a customer, and a site with an address to show.
pub record Publishable (id : ℕ) (t : Tables) : Type 0 where
  pub order : Order
  pub current : OrderStatus
  pub site : Site
  pub live_url : Text
  pub customer_id : ℕ
  pub found : find (λ row. row.id == id) t.orders ≡ some order
  pub was : from_slug order.status ≡ some current
  pub may : can_transition_to current publicerad ≡ true
  pub of_order : find (λ s. is_id s.order_id id) t.sites ≡ some site
  pub live : non_blank site.live_url ≡ some live_url
  pub linked : order.customer_id ≡ some customer_id

module _ (o : Orm) (laws : IsOrm o) (answers : Answers o) (c : Cell) (signing : Bool) where
  publish_succeeds :
      (mail : Option Mail) (id : ℕ) (w : World o c)
      → Publishable id (o.tables w.db)
      → (publish_one o c mail signing id w).0 ≡ ok tt
  unfolding publish_one load_order site_for domain_name sign_claims pure read read_or require write
      attempt notify guard ◌>>=◌
  publish_succeeds mail id w p =
      let (r, e) = answers.finds id w.db in
      let read_order : o.find_order id w.db ≡ ok (some p.order) =
        e ∙ ap ok (laws.find_order_ok id w.db r e ∙ p.found) in
      let (rows, e') = answers.lists_sites w.db in
      let listed : find (λ s. is_id s.order_id id) rows ≡ some p.site =
        ap (find (λ s. is_id s.order_id id)) (laws.all_sites_ok w.db rows e') ∙ p.of_order in
      let saved = answers.executes (set_status (Status.slug publicerad) p.order.id) w.db in
      elim (Option-cases p.site.domain_id) [
        | inl unnamed ↦ elim (Option-cases mail) [
          | inl quiet ↦
              rw (read_order, p.was, p.may, e', listed, p.live, p.linked, unnamed, saved, quiet)
                refl
          | inr (m, posts) ↦
              rw (read_order, p.was, p.may, e', listed, p.live, p.linked, unnamed, saved, posts)
                refl
        ]
        | inr (domain, named) ↦ elim (Option-cases mail) [
          | inl quiet ↦
              rw (read_order, p.was, p.may, e', listed, p.live, p.linked, named, saved, quiet) refl
          | inr (m, posts) ↦
              rw (read_order, p.was, p.may, e', listed, p.live, p.linked, named, saved, posts) refl
        ]
      ]

  -- With a database that keeps to IsOrm and answers: publishing an order succeeds exactly when its
  -- status may become publicerad, it has a customer, and its site has an address that is not blank;
  -- no failure of signing, stamping or mailing stands in its way.
  pub publish_one_iff :
      (mail : Option Mail) (id : ℕ) (w : World o c)
      → ((publish_one o c mail signing id w).0 ≡ ok tt) ↔ Publishable id (o.tables w.db)
  publish_one_iff mail id w = (
    λ h.
        let done = publish_one-Published o laws c mail signing id w h in
        record {
          order = done.order;
          current = done.current;
          site = done.site;
          live_url = done.live_url;
          customer_id = done.customer_id;
          found = done.found;
          was = done.was;
          may = done.may;
          of_order = done.of_order;
          live = done.live;
          linked = done.linked;
        },
    λ p. publish_succeeds mail id w p,
  )
