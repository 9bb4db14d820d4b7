-- ===== src/Studio/Grows/OneOrder.antt =====
-- Each action on one order lets the tables grow, whether it succeeds or is refused half way.
use hemsidor.Prelude.{
  is_some, ℕ, Bool, true, ◌≡◌, refl, sym, Option, none, some, find, map, ◌==◌, arith, not,
}
use mathlib.Core.Path.{subst}
use hemsidor.Core.Status
use hemsidor.Core.Status.{OrderStatus, from_slug, can_transition_to, publicerad}
use hemsidor.Core.Status.Laws.{can_transition_to_iff}
use hemsidor.Notify.Message.{Message}
use hemsidor.Studio.Models.{Order}
use hemsidor.Studio.Tables.{
  Tables, Column, set_status, stamp_delivery, link_customer, stamp_published, transfer_flags,
  stamp_refunded,
}
use hemsidor.Studio.Backend.{Orm, IsOrm}
use hemsidor.Handover.Cell.{Cell}
use hemsidor.Studio.Monad.{World, Action, Mail, notify, ◌>>=◌}
use hemsidor.Studio.Monad.Ends.{
  Ends, Ends-require, Ends-write, Ends-guard, Ends-attempt, Ends-last_write, Ends-notify, delivered,
  Ends-both, Ends-bind, Ends-pure,
}
use hemsidor.Studio.Monad.Calls.{
  Ends-load_order, Ends-site_for, Ends-delivery_for, Ends-domain_name, Ends-moment,
  Ends-sign_claims,
}
use hemsidor.Studio.Workflow.{Step, advance, stamp}
use hemsidor.Studio.Accept.{accept_one}
use hemsidor.Studio.Publication.{publish_one}
use hemsidor.Studio.Cancellation.{refund_one}
use hemsidor.Studio.Grows.{Grows, Unique, order_ids}
use hemsidor.Studio.Grows.Rows.{Grows-refl}
use hemsidor.Studio.Grows.Stamps.{
  stamp_delivery-Grows, stamp_published-Grows, stamp_refunded-Grows, transfer_flags-Grows,
}
use hemsidor.Studio.Grows.Statements.{set_status-Grows, link_customer-Grows}
use hemsidor.Studio.Grows.Writes.{
  execute-Grows, Inserted, create_customer-Inserted, create_site-Inserted, create_delivery-Inserted,
}

-- The tables have grown from `t`.
abbrev pub Grown : (o : Orm) (c : Cell) → Tables → World o c → Type 0
Grown o c t w = Grows t (o.tables w.db)

module _ (o : Orm) (laws : IsOrm o) (c : Cell) (t : Tables) where
  stamp-Grown :
      (column : Option Column) (id : ℕ) (f : Unit {0} → Action o c (Unit {0})) (w : World o c)
      → Grown o c t w
      → ((v : World o c) → Grown o c t v → Ends (Grown o c t) (λ _. Grown o c t) (f tt) v)
      → Ends (Grown o c t) (λ _. Grown o c t) (stamp o c column id >>= f) w
  unfolding stamp
  stamp-Grown none id f w h k =
      Ends-bind {Q = λ _. Grown o c t} _ f w (Ends-pure tt w h) (λ _ v q. k v q)
  stamp-Grown (some column) id f w h k = Ends-attempt _ f w (
      k _ (
        execute-Grows o laws t (stamp_delivery column id) w.db h
          (stamp_delivery-Grows (o.now w.db) column id (o.tables w.db))))

module _ (o : Orm) (c : Cell) (t : Tables) where
  told :
      (mail : Option Mail) (message : Mail → Message) (w : World o c)
      → Grown o c t w
      → Grown o c t (delivered mail message w)
  told none message w h = h
  told (some m) message w h = h

  -- The message leaves the database alone.
  tell :
      (mail : Option Mail) (message : Mail → Message) (w : World o c)
      → Grown o c t w
      → Ends (Grown o c t) (λ _. Grown o c t) (notify mail message) w
  tell mail message w h = Ends-notify mail message w (told mail message w h)

module _ (o : Orm) (laws : IsOrm o) (c : Cell) (w : World o c)
    (unique : Unique (order_ids (o.tables w.db))) where
  -- The first write of a step: the status of the order that was found.
  first_status :
      (id : ℕ) (order : Order) (current to : OrderStatus)
      → find (λ row. row.id == id) (o.tables w.db).orders ≡ some order
      → from_slug order.status ≡ some current
      → can_transition_to current to ≡ true
      → Grows (o.tables w.db) (o.tables (o.execute (set_status (Status.slug to) order.id) w.db).1)
  first_status id order current to found was may =
      execute-Grows o laws (o.tables w.db) (set_status (Status.slug to) order.id) w.db
        (Grows-refl (o.tables w.db))
        (set_status-Grows order (o.now w.db) id current to (o.tables w.db) unique found was
          ((can_transition_to_iff current to).0 may))

  pub advance-Grown :
      (mail : Option Mail) (id : ℕ) (step : Step)
      → Grown o c (o.tables w.db) (advance o c mail id step w).1
  unfolding advance
  advance-Grown mail id step =
      let t = o.tables w.db in
      let start = Grows-refl t in
      Ends-both {P = Grown o c (o.tables w.db)} (advance o c mail id step) w (
        Ends-load_order laws id _ w start λ order found. Ends-require _ _ _ w start λ current was.
          Ends-guard _ _ _ w start λ may. Ends-require _ _ _ w start λ chosen parsed.
            let next = first_status id order current step.to found was may in
            Ends-write _ _ _ w (λ _ _. next)
              λ _ _.
                stamp-Grown o laws c t step.stamp order.id _ _ next
                  λ v grown. tell o c t mail _ v grown)

  -- The last write of an acceptance: the orders are still as they were.
  last_link :
      (id customer_id : ℕ) (order : Order) (d : o.Db)
      → find (λ row. row.id == id) (o.tables w.db).orders ≡ some order
      → order.customer_id ≡ none
      → Inserted o laws (o.tables w.db) d
      → Grows (o.tables w.db) (o.tables (o.execute (link_customer customer_id order.id) d).1)
  last_link id customer_id order d found free before =
      execute-Grows o laws (o.tables w.db) (link_customer customer_id order.id) d before.grown (
        link_customer-Grows order (o.now d) id customer_id (o.tables d)
          (subst (λ os. Unique (map (λ row. row.id) os)) (sym before.orders) unique)
          (subst (λ os. find (λ row. row.id == id) os ≡ some order) (sym before.orders) found) free)

  no_customer : (n : Option ℕ) → not (is_some n) ≡ true → n ≡ none
  no_customer n h = ground arith

  pub accept_one-Grown : (id : ℕ) → Grown o c (o.tables w.db) (accept_one o c id w).1
  unfolding accept_one
  accept_one-Grown id =
      let t = o.tables w.db in
      let start = Grows-refl t in
      Ends-both {P = Grown o c (o.tables w.db)} (accept_one o c id) w (
        Ends-load_order laws id _ w start λ order found. Ends-guard _ _ _ w start λ free.
          Ends-guard _ _ _ w start λ open_. Ends-moment _ w (
            let one =
              create_customer-Inserted o laws t _ w.db (record { grown = start; orders = refl }) in
            Ends-write _ _ _ w (λ _ _. one.grown)
              λ customer_id _.
                let two = create_site-Inserted o laws t _ _ one in
                Ends-write _ _ _ _ (λ _ _. two.grown)
                  λ site_id _.
                    let three = create_delivery-Inserted o laws t _ _ two in
                    Ends-write _ _ _ _ (λ _ _. three.grown)
                      λ delivery_id _.
                        let linked =
                          last_link id customer_id order _ found
                            (no_customer order.customer_id free) three in
                        Ends-last_write _ _ _ (λ _ _. linked) (λ _ _. linked)))

  pub publish_one-Grown :
      (mail : Option Mail) (signing : Bool) (id : ℕ)
      → Grown o c (o.tables w.db) (publish_one o c mail signing id w).1
  unfolding publish_one
  publish_one-Grown mail signing id =
      let t = o.tables w.db in
      let start = Grows-refl t in
      Ends-both {P = Grown o c (o.tables w.db)} (publish_one o c mail signing id) w (
        Ends-load_order laws id _ w start λ order found. Ends-require _ _ _ w start λ current was.
          Ends-guard _ _ _ w start λ may. Ends-site_for laws id _ w start λ site of_order.
            Ends-require _ _ _ w start λ live_url live.
              Ends-require _ _ _ w start λ customer_id linked. Ends-domain_name site.domain_id _ w (
                let next = first_status id order current publicerad found was may in
                Ends-write _ _ _ w (λ _ _. next)
                  λ _ _.
                    let published =
                      execute-Grows o laws t (stamp_published site.id) _ next
                        (stamp_published-Grows _ site.id _) in
                    Ends-attempt _ _ _ (
                      Ends-sign_claims signing customer_id _ _ _ (
                        Ends-attempt _ _ _ (
                          tell o c t mail _ _ (
                            execute-Grows o laws t (transfer_flags order.id _ _ _) _ published
                              (transfer_flags-Grows _ order.id _ _ _ _)))))))

  pub refund_one-Grown :
      (mail : Option Mail) (id : ℕ) → Grown o c (o.tables w.db) (refund_one o c mail id w).1
  unfolding refund_one
  refund_one-Grown mail id =
      let t = o.tables w.db in
      let start = Grows-refl t in
      Ends-both {P = Grown o c (o.tables w.db)} (refund_one o c mail id) w (
        Ends-load_order laws id _ w start λ order found. Ends-require _ _ _ w start λ current was.
          Ends-guard _ _ _ w start λ called_off. Ends-require _ _ _ w start λ chosen parsed.
            Ends-delivery_for laws id _ w start λ site delivery of_order of_site.
              Ends-require _ _ _ w start λ reason given. Ends-guard _ _ _ w start λ first.
                let next =
                  execute-Grows o laws t (stamp_refunded delivery.id) w.db start
                    (stamp_refunded-Grows (o.now w.db) delivery.id t) in
                Ends-write _ _ _ w (λ _ _. next) λ _ _. tell o c t mail _ _ next)
