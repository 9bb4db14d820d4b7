-- ===== src/Studio/Interleaved/Races/Accept.antt =====
-- crates/hemsidor24-admin/src/accept.rs: two operators accept one order.
use hemsidor.Prelude.{
  ℕ, false, ◌≡◌, refl, sym, ap, ◌∙◌, none, some, List, [], ◌∷◌, ◌++◌, map, find, ok, ◌==◌, ==_iff,
  find_passes,
}
use mathlib.Core.Path.{subst}
use hemsidor.Text.{codes, text_eq}
use hemsidor.Studio.Models.{Order, Customer, Site, Delivery}
use hemsidor.Studio.Tables.{Tables, link_customer, with_customer}
use hemsidor.Studio.Backend.{Orm, IsOrm}
use hemsidor.Handover.Cell.{Cell}
use hemsidor.Studio.Monad.{World, write, read, require, guard, ◌>>=◌}
use hemsidor.Studio.Workflow.{load_order}
use hemsidor.Studio.Accept.{accept_one, moment, new_customer, new_site, new_delivery}
use hemsidor.Studio.Outcomes.Acceptance.{find_linked}
use hemsidor.Studio.Outcomes.Acceptance.Writes.{
  with_new_customer, with_new_site, with_new_delivery, with_all, with_all-tables, accepted_tables,
  accept_one-Written,
}
use hemsidor.Studio.Progress.{Answers}
use hemsidor.Studio.Interleaved.{behind, outrun}
use hemsidor.Studio.Interleaved.Races.{reads_order}

-- A database that answers, also where rows are inserted.
pub record Inserts (o : Orm) : Type 0 where
  pub answers : Answers o
  pub customer : (r : Customer) (d : o.Db) → (id : ℕ) × ((o.create_customer r d).0 ≡ ok id)
  pub site : (r : Site) (d : o.Db) → (id : ℕ) × ((o.create_site r d).0 ≡ ok id)
  pub delivery : (r : Delivery) (d : o.Db) → (id : ℕ) × ((o.create_delivery r d).0 ≡ ok id)

-- An acceptance whose reads and writes succeed.
accept_one_runs :
    {o : Orm} {c : Cell} (id : ℕ) (w : World o c) (order : Order)
    (customer_id site_id delivery_id : ℕ)
    → o.find_order id w.db ≡ ok (some order)
    → order.customer_id ≡ none
    → text_eq order.status (codes "avbruten") ≡ false
    → (o.create_customer (new_customer order (o.now w.db)) w.db).0 ≡ ok customer_id
    → (o.create_site
        (new_site order customer_id (o.now w.db))
        (with_new_customer o order (o.now w.db) w.db)).0
      ≡ ok site_id
    → (o.create_delivery
        (new_delivery site_id customer_id (o.now w.db))
        (with_new_site o order customer_id (o.now w.db) w.db)).0
      ≡ ok delivery_id
    → (o.execute
        (link_customer customer_id order.id)
        (with_new_delivery o order customer_id site_id (o.now w.db) w.db)).0
      ≡ ok tt
    → accept_one o c id w
      ≡ (ok tt, record w { db = with_all o order customer_id site_id (o.now w.db) w.db })
unfolding accept_one load_order moment read require write guard ◌>>=◌ new_customer new_delivery
    new_site
accept_one_runs id w order customer_id site_id delivery_id found free open_order e1 e2 e3 e4 =
    rw (found, free, open_order, e1, e2, e3, e4) refl

-- Two customers for the one order, of which it is linked to the second.
pub record Duplicated (id : ℕ) (t u : Tables) : Type 0 where
  pub order : Order
  pub first : ℕ
  pub second : ℕ
  pub now : ℕ
  pub found : find (λ row. row.id == id) t.orders ≡ some order
  pub customers :
      u.customers
      ≡ (t.customers ++ record (new_customer order now) { id = first } ∷ [])
        ++ record (new_customer order now) { id = second } ∷ []
  pub linked :
      find (λ row. row.id == id) u.orders ≡ some (record order { customer_id = some second })

-- The orders after both.
linked_twice :
    (id first second : ℕ) (os : List Order) (order : Order)
    → find (λ row. row.id == id) os ≡ some order
    → find
        (λ row. row.id == id)
        (map (with_customer second order.id) (map (with_customer first order.id) os))
      ≡ some (record order { customer_id = some second })
linked_twice id first second os order found =
    subst
      (λ n.
        find (λ row. row.id == id) (map (with_customer second n) (map (with_customer first n) os))
        ≡ some (record order { customer_id = some second }))
      (sym ((==_iff order.id id).0 (find_passes (λ row. row.id == id) os found)))
      (find_linked second id (map (with_customer first id) os)
        (record order { customer_id = some first }) (find_linked first id os order found))

module _ (o : Orm) (c : Cell) where
  -- The other operator accepts the same order, from beginning to end.
  abbrev pub accepting : ℕ → World o c → o.Db → o.Db
  accepting id w d = (accept_one o c id (record w { db = d })).1.db

module _ (o : Orm) (laws : IsOrm o) (inserts : Inserts o) (c : Cell) where
  -- With a database that keeps to IsOrm and answers: where an order can be accepted and two operators
  -- do so at once, the second having checked before the first has written, both succeed. The order
  -- then has two customers, and is linked to the second.
  pub accept_one-outrun :
      (id : ℕ) (w : World o c)
      → (accept_one o c id w).0 ≡ ok tt
      → ((accept_one (behind o (accepting o c id w)) c id (outrun (accepting o c id w) w)).0
          ≡ ok tt)
        × Duplicated id (o.tables w.db) (
            o.tables
              (accept_one
                (behind o (accepting o c id w))
                c
                id
                (outrun (accepting o c id w) w)).1.db.db)
  accept_one-outrun id w success =
      let act = accepting o c id w in
      let done = (accept_one-Written o laws c id w success).0 in
      let order = done.order in
      let now = o.now w.db in
      let d = act w.db in
      let (second, e1) = inserts.customer (new_customer order now) d in
      let (site_id, e2) =
        inserts.site (new_site order second now) (with_new_customer o order now d) in
      let (delivery_id, e3) =
        inserts.delivery (new_delivery site_id second now) (with_new_site o order second now d) in
      let e4 =
        inserts.answers.executes (link_customer second order.id)
          (with_new_delivery o order second site_id now d) in
      let run =
        accept_one_runs {o = behind o act} id (outrun act w) order second site_id delivery_id
          (reads_order o laws inserts.answers id w.db order done.found) done.free done.open_order e1
          e2 e3 e4 in
      let tables =
        ap (λ r. o.tables r.1.db.db) run
        ∙ (with_all-tables o laws order second site_id delivery_id now d e1 e2 e3 e4
            ∙ ap (accepted_tables o order second site_id delivery_id now) done.added) in
      (
        ap (λ r. r.0) run,
        record {
          order = order;
          first = done.customer_id;
          second = second;
          now = now;
          found = done.found;
          customers = ap (λ t. t.customers) tables;
          linked =
              ap (λ t. find (λ row. row.id == id) t.orders) tables
              ∙ linked_twice id done.customer_id second (o.tables w.db).orders order done.found;
        },
      )
