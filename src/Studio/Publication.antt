-- ===== src/Studio/Publication.antt =====
-- crates/hemsidor24-admin/src/publication.rs: publishing a site and handing it over.
use hemsidor.Prelude.{ℕ, Bool, Option, none, some, find, is_empty, if◌then◌else◌, ok}
use hemsidor.Text.{Text}
use hemsidor.Text.Trim.{trim}
use hemsidor.Core.Status
use hemsidor.Core.Status.{publicerad, from_slug, can_transition_to}
use hemsidor.Notify.Message.{site_published}
use hemsidor.Studio.Models.{Site}
use hemsidor.Studio.Tables.{is_id, set_status, stamp_published, transfer_flags}
use hemsidor.Studio.Backend.{Orm}
use hemsidor.Handover.Cell.{Cell}
use hemsidor.Studio.Monad.{
  Action, Mail, unknown_status, cannot_publish, sites_unreadable, site_missing, no_live_url,
  no_customer, status_not_saved, pure, require, read, read_or, write, attempt, notify, guard, ◌>>=◌,
  ◌>>◌,
}
use hemsidor.Studio.Workflow.{load_order}
use hemsidor.Studio.Signing.{Artefacts, Signed, sign}

-- `.filter(|s| !s.trim().is_empty())`
unfoldable pub non_blank : Option Text → Option Text
non_blank none = none
non_blank (some t) = if is_empty (trim t) then none else some t

module _ (o : Orm) (c : Cell) where
  -- `site_for`
  unfoldable pub site_for : ℕ → Action o c Site
  site_for order_id = do
    sites ← read o.all_sites sites_unreadable
    require (find (λ s. is_id s.order_id order_id) sites) site_missing

  -- `domain_name`
  unfoldable pub domain_name : Option ℕ → Action o c (Option Text)
  domain_name none = pure none
  domain_name (some id) = read_or none (o.domain_name id)

module _ (o : Orm) (c : Cell) (signing : Bool) where
  -- `signing::sign(customer_id, &artefacts).await`
  unfoldable pub sign_claims : ℕ → Artefacts → Action o c Signed
  sign_claims customer_id artefacts w =
      let (signed, s) = sign c signing customer_id artefacts w.cell in
      (ok signed, record w { cell = s })

module _ (o : Orm) (c : Cell) (mail : Option Mail) (signing : Bool) where
  -- `publish_one`
  unfoldable pub publish_one : ℕ → Action o c (Unit {0})
  publish_one order_id = do
    order ← load_order o c order_id
    current ← require (from_slug order.status) (unknown_status order.status)
    guard (can_transition_to current publicerad) (cannot_publish current)
    site ← site_for o c order_id
    live_url ← require (non_blank site.live_url) no_live_url
    customer_id ← require order.customer_id no_customer
    name ← domain_name o c site.domain_id
    write (o.execute (set_status (Status.slug publicerad) order.id)) status_not_saved
    attempt (o.execute (stamp_published site.id))
    signed ← sign_claims o c signing customer_id (record {
      domain = name;
      hosting = non_blank site.hosting_ref;
      source = non_blank site.repo_url;
    })
    attempt (o.execute (transfer_flags order.id signed.domain signed.hosting signed.source))
    notify mail (λ m. site_published order.company live_url order.email m.from m.studio)
