-- ===== src/Studio/Consistent/OneOrder.antt =====
-- Each action on one order leaves the tables consistent, whether it succeeds or is refused half way.
use hemsidor.Prelude.{
  ℕ, Bool, true, ◌≡◌, refl, sym, ap, ◌∙◌, inl, inr, Option, none, some, List, [], ◌∷◌, any, find,
  ◌==◌, ◌&&◌, ==_iff, find_passes, Bool-cases, Result-cases, arith,
}
use mathlib.Core.Path.{subst}
use hemsidor.Core.Status
use hemsidor.Core.Status.{OrderStatus, from_slug, publicerad, avbruten}
use hemsidor.Core.Status.Laws.{can_transition_to_iff, from_slug-slug}
use hemsidor.Notify.Message.{Message}
use hemsidor.Studio.Models.{Order}
use hemsidor.Studio.Tables.{
  Tables, Column, Update, is_id, set_status, stamp_delivery, stamp_refunded, perform,
}
use hemsidor.Studio.Backend.{Orm, IsOrm}
use hemsidor.Handover.Cell.{Cell}
use hemsidor.Studio.Monad.{World, Action, Mail, notify, ◌>>=◌}
use hemsidor.Studio.Monad.Ends.{
  Ends, Ends-require, Ends-write, Ends-guard, Ends-attempt, Ends-notify, Ends-both, Ends-bind,
  Ends-pure,
}
use hemsidor.Studio.Monad.Calls.{Ends-load_order, Ends-delivery_for}
use hemsidor.Studio.Workflow.{Step, advance, stamp}
use hemsidor.Studio.Cancellation.{refund_one}
use hemsidor.Studio.Lives.{status_of, read_status}
use hemsidor.Studio.Outcomes.Refund.{status_eq_sound}
use hemsidor.Studio.Progress.{find_moved}
use hemsidor.Studio.Consistent.{Delivers, Consistent}
use hemsidor.Studio.Consistent.Statements.{set_status-Consistent}
use hemsidor.Studio.Consistent.Deliveries.{stamp_delivery-Consistent, stamp_refunded-Consistent}

any-found :
    {A : Type 0} (p q : A → Bool) (xs : List A) (x : A)
    → find p xs ≡ some x
    → q x ≡ true
    → any q xs ≡ true
any-found p q [] x h e = absurd (ground arith)
any-found p q (y ∷ xs) x h e = elim (Bool-cases (p y)) [
  | inl here ↦ let same : y ≡ x = ground (arith, here, h) in rw (ap q same ∙ e) refl
  | inr there ↦ ground (arith, any-found p q xs x (ground (arith, there, h)) e)
]

-- The status of the order that was found, before and after it is written.
status_found :
    (id : ℕ) (t : Tables) (order : Order) (s : OrderStatus)
    → find (λ row. row.id == id) t.orders ≡ some order
    → from_slug order.status ≡ some s
    → status_of id t.orders ≡ some s
unfolding status_of
status_found id t order s found was = ap read_status found ∙ was

pub key_found :
    (id : ℕ) (t : Tables) (order : Order)
    → find (λ row. row.id == id) t.orders ≡ some order
    → order.id ≡ id
key_found id t order found =
    (==_iff order.id id).0 (find_passes (λ row. row.id == id) t.orders found)

pub status_set :
    (now id : ℕ) (t : Tables) (order : Order) (s : OrderStatus)
    → find (λ row. row.id == id) t.orders ≡ some order
    → status_of order.id (perform now (set_status (Status.slug s) order.id) t).orders ≡ some s
unfolding status_of perform
status_set now id t order s found =
    ap read_status (
      find_moved (Status.slug s) order.id t.orders order (
        subst (λ n. find (λ row. row.id == n) t.orders ≡ some order)
          (sym (key_found id t order found)) found))
    ∙ from_slug-slug s

module _ (o : Orm) (laws : IsOrm o) where
  pub execute_then :
      (Q : Tables → Type 0) (u : Update) (d : o.Db)
      → Q (o.tables d)
      → Q (perform (o.now d) u (o.tables d))
      → Q (o.tables (o.execute u d).1)
  execute_then Q u d before after = elim (Result-cases (o.execute u d).0) [
    | inl (tt, e) ↦ subst Q (sym (laws.execute_ok u d e)) after
    | inr (why, e) ↦ subst Q (sym (laws.execute_err u d why e)) before
  ]

-- The tables of the world are consistent.
abbrev pub Sound : (o : Orm) (c : Cell) → World o c → Type 0
Sound o c w = Consistent (o.tables w.db)

module _ (o : Orm) (c : Cell) where
  pub tell :
      (mail : Option Mail) (message : Mail → Message) (w : World o c)
      → Sound o c w
      → Ends (Sound o c) (λ _. Sound o c) (notify mail message) w
  tell none message w h = Ends-notify none message w h
  tell (some m) message w h = Ends-notify (some m) message w h

module _ (o : Orm) (laws : IsOrm o) (c : Cell) where
  stamp-Sound :
      (column : Option Column) (id : ℕ) (f : Unit {0} → Action o c (Unit {0})) (w : World o c)
      → Sound o c w
      → ((v : World o c) → Sound o c v → Ends (Sound o c) (λ _. Sound o c) (f tt) v)
      → Ends (Sound o c) (λ _. Sound o c) (stamp o c column id >>= f) w
  unfolding stamp
  stamp-Sound none id f w h k =
      Ends-bind {Q = λ _. Sound o c} _ f w (Ends-pure tt w h) (λ _ v q. k v q)
  stamp-Sound (some column) id f w h k = Ends-attempt _ f w (
      k _ (
        execute_then o laws Consistent (stamp_delivery column id) w.db h
          (stamp_delivery-Consistent (o.tables w.db) h (o.now w.db) column id)))

  pub advance-Sound :
      (mail : Option Mail) (id : ℕ) (step : Step) (w : World o c)
      → Sound o c w
      → Sound o c (advance o c mail id step w).1
  unfolding advance
  advance-Sound mail id step w h = Ends-both {P = Sound o c} (advance o c mail id step) w (
      Ends-load_order laws id _ w h λ order found. Ends-require _ _ _ w h λ current was.
        Ends-guard _ _ _ w h λ may. Ends-require _ _ _ w h λ chosen parsed.
          let next =
            execute_then o laws Consistent (set_status (Status.slug step.to) order.id) w.db h (
              set_status-Consistent (o.tables w.db) h (o.now w.db) id order current step.to found
                was ((can_transition_to_iff current step.to).0 may)) in
          Ends-write _ _ _ w (λ _ _. next)
            λ _ _. stamp-Sound step.stamp order.id _ _ next λ v sound. tell o c mail _ v sound)

  pub refund_one-Sound :
      (mail : Option Mail) (id : ℕ) (w : World o c)
      → Sound o c w
      → Sound o c (refund_one o c mail id w).1
  unfolding refund_one
  refund_one-Sound mail id w h =
      let t = o.tables w.db in
      Ends-both {P = Sound o c} (refund_one o c mail id) w (
        Ends-load_order laws id _ w h λ order found. Ends-require _ _ _ w h λ current was.
          Ends-guard _ _ _ w h λ called_off. Ends-require _ _ _ w h λ chosen parsed.
            Ends-delivery_for laws id _ w h λ site delivery of_order of_site.
              Ends-require _ _ _ w h λ reason given. Ends-guard _ _ _ w h λ first.
                let off : Delivers t.orders t.sites avbruten delivery = (
                  id,
                  any-found (λ s. is_id s.order_id id)
                      (λ s. is_id delivery.site_id s.id && is_id s.order_id id) t.sites site
                      of_order
                      (ground (
                        arith,
                        find_passes (λ s. is_id s.order_id id) t.sites of_order,
                        find_passes (λ d. is_id d.site_id site.id) t.deliveries of_site,
                      )),
                  status_found id t order avbruten found
                      (was ∙ ap some (status_eq_sound current avbruten called_off)),
                ) in
                let next = execute_then o laws Consistent (stamp_refunded delivery.id) w.db h (
                  stamp_refunded-Consistent t h (o.now w.db) (λ d. is_id d.site_id site.id) delivery
                    of_site off) in
                Ends-write _ _ _ w (λ _ _. next) λ _ _. tell o c mail _ _ next)
