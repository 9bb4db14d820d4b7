-- ===== src/Studio/Consistent/Publication.antt =====
-- Publishing leaves the tables consistent: the status is written before the stamp and the flags.
use hemsidor.Prelude.{ℕ, Bool, true, ◌≡◌, sym, Option, some, find, ◌==◌}
use mathlib.Core.Path.{subst}
use hemsidor.Core.Status
use hemsidor.Core.Status.{OrderStatus, publicerad, from_slug, can_transition_to}
use hemsidor.Core.Status.Laws.{can_transition_to_iff}
use hemsidor.Studio.Models.{Order, Site}
use hemsidor.Studio.Tables.{Tables, is_id, set_status, stamp_published, transfer_flags, perform}
use hemsidor.Studio.Backend.{Orm, IsOrm}
use hemsidor.Handover.Cell.{Cell}
use hemsidor.Studio.Monad.{World, Mail}
use hemsidor.Studio.Monad.Ends.{Ends-require, Ends-write, Ends-guard, Ends-attempt, Ends-both}
use hemsidor.Studio.Monad.Calls.{Ends-load_order, Ends-site_for, Ends-domain_name, Ends-sign_claims}
use hemsidor.Studio.Publication.{publish_one}
use hemsidor.Studio.Lives.{status_of}
use hemsidor.Studio.Consistent.{Consistent}
use hemsidor.Studio.Consistent.Statements.{set_status-Consistent, stamp_published-Consistent}
use hemsidor.Studio.Consistent.Deliveries.{transfer_flags-Consistent}
use hemsidor.Studio.Consistent.OneOrder.{Sound, tell, key_found, status_set, execute_then}

-- The order is published, and its site not yet stamped.
record Ready (id key : ℕ) (site : Site) (t : Tables) : Type 0 where
  consistent : Consistent t
  published : status_of key t.orders ≡ some publicerad
  of_order : find (λ s. is_id s.order_id id) t.sites ≡ some site

-- The same with the site stamped.
record Flaggable (key : ℕ) (t : Tables) : Type 0 where
  consistent : Consistent t
  published : status_of key t.orders ≡ some publicerad

written-Ready :
    (now id : ℕ) (order : Order) (current : OrderStatus) (site : Site) (t : Tables)
    → Consistent t
    → find (λ row. row.id == id) t.orders ≡ some order
    → from_slug order.status ≡ some current
    → can_transition_to current publicerad ≡ true
    → find (λ s. is_id s.order_id id) t.sites ≡ some site
    → Ready id order.id site (perform now (set_status (Status.slug publicerad) order.id) t)
unfolding perform
written-Ready now id order current site t h found was may of_order = record {
  consistent =
      set_status-Consistent t h now id order current publicerad found was
        ((can_transition_to_iff current publicerad).0 may);
  published = status_set now id t order publicerad found;
  of_order = of_order;
}

stamped-Flaggable :
    (now id key : ℕ) (site : Site) (t : Tables)
    → key ≡ id
    → Ready id key site t
    → Flaggable key (perform now (stamp_published site.id) t)
unfolding perform
stamped-Flaggable now id key site t same r = record {
  consistent =
      stamp_published-Consistent t r.consistent now id site r.of_order
        (subst (λ n. status_of n t.orders ≡ some publicerad) same r.published);
  published = r.published;
}

module _ (o : Orm) (laws : IsOrm o) (c : Cell) where
  flagged :
      (key : ℕ) (domain hosting source : Bool) (d : o.Db)
      → Flaggable key (o.tables d)
      → Consistent (o.tables (o.execute (transfer_flags key domain hosting source) d).1)
  flagged key domain hosting source d f =
      execute_then o laws Consistent (transfer_flags key domain hosting source) d f.consistent (
        transfer_flags-Consistent (o.tables d) f.consistent (o.now d) key domain hosting source
          f.published)

  stamped :
      (id key : ℕ) (site : Site) (d : o.Db)
      → key ≡ id
      → Ready id key site (o.tables d)
      → Flaggable key (o.tables (o.execute (stamp_published site.id) d).1)
  stamped id key site d same r =
      execute_then o laws (Flaggable key) (stamp_published site.id) d
        (record { consistent = r.consistent; published = r.published })
        (stamped-Flaggable (o.now d) id key site (o.tables d) same r)

  pub publish_one-Sound :
      (mail : Option Mail) (signing : Bool) (id : ℕ) (w : World o c)
      → Sound o c w
      → Sound o c (publish_one o c mail signing id w).1
  unfolding publish_one
  publish_one-Sound mail signing id w h =
      Ends-both {P = Sound o c} (publish_one o c mail signing id) w (
        Ends-load_order laws id _ w h λ order found. Ends-require _ _ _ w h λ current was.
          Ends-guard _ _ _ w h λ may. Ends-site_for laws id _ w h λ site of_order.
            Ends-require _ _ _ w h λ live_url live. Ends-require _ _ _ w h λ customer_id linked.
              Ends-domain_name site.domain_id _ w (
                let t = o.tables w.db in
                let update = set_status (Status.slug publicerad) order.id in
                let ready =
                  written-Ready (o.now w.db) id order current site t h found was may of_order in
                Ends-write _ _ _ w
                  (λ e failed. subst Consistent (sym (laws.execute_err update w.db e failed)) h)
                  λ answer saved.
                    let next =
                      stamped id order.id site (o.execute update w.db).1
                        (key_found id t order found)
                        (subst (Ready id order.id site) (sym (laws.execute_ok update w.db saved))
                          ready) in
                    Ends-attempt _ _ _ (
                      Ends-sign_claims signing customer_id _ _ _
                        (Ends-attempt _ _ _ (tell o c mail _ _ (flagged order.id _ _ _ _ next))))))
