-- ===== src/Studio/Progress.antt =====
-- What becomes of an order that the public page stored: the steps that it can take.
pub mod Publishing
pub mod Approval
use hemsidor.Prelude.{
  ℕ, ◌≡◌, refl, sym, ap, ◌∙◌, inl, inr, true, Bool-cases, Option, none, some, List, [], ◌∷◌, ◌++◌,
  map, find, ◌==◌, ==_iff, find_passes, ok, Result, arith,
}
use mathlib.Core.Path.{subst}
use hemsidor.Text.{Text, codes, text_eq}
use hemsidor.Core.Order as Submitted
use hemsidor.Core.Status
use hemsidor.Core.Status.{
  OrderStatus, ny, utkast_skickat, godkand, from_slug, can_transition_to, next_allowed,
}
use hemsidor.Core.Package
use hemsidor.Core.Package.{Package}
use hemsidor.Core.Package.Laws
use hemsidor.Notify.Message.{Message, proposal_ready, proposal_accepted}
use hemsidor.Web.Orders.{NewRow, Backend, RequestMeta, new_row}
use hemsidor.Studio.Models.{Order, Site}
use hemsidor.Studio.Tables.{Update, Column, set_status, stamp_delivery, with_status, perform}
use hemsidor.Studio.Backend.{Orm, IsOrm}
use hemsidor.Handover.Cell.{Cell}
use hemsidor.Studio.Monad.{
  World, Mail, handed, pure, read, require, write, attempt, notify, guard, ◌>>=◌, ◌>>◌,
}
use hemsidor.Studio.Workflow.{Step, load_order, stamp, advance}
use hemsidor.Studio.Workflow.Steps.{after_stamp, advance_done}
use hemsidor.Studio.Actions.{proposal_step, acceptance_step}

-- A database that answers: every read and every update succeeds.
pub record Answers (o : Orm) : Type 0 where
  pub finds : (id : ℕ) (d : o.Db) → (r : Option Order) × (o.find_order id d ≡ ok r)
  pub lists_sites : (d : o.Db) → (rows : List Site) × (o.all_sites d ≡ ok rows)
  pub executes : (u : Update) (d : o.Db) → (o.execute u d).0 ≡ ok tt

found_first :
    (id : ℕ) (row : Order) (os : List Order) (order : Order)
    → row.id == id ≡ true
    → find (λ r. r.id == id) (row ∷ os) ≡ some order
    → row ≡ order
found_first id row os order here h = ground arith

-- The row that was found has its new status afterwards.
pub find_moved :
    (status : Text) (id : ℕ) (os : List Order) (order : Order)
    → find (λ row. row.id == id) os ≡ some order
    → find (λ row. row.id == id) (map (with_status status id) os)
      ≡ some (record order { status = status })
find_moved status id [] order h = absurd (ground arith)
find_moved status id (row ∷ os) order h = elim (Bool-cases (row.id == id)) [
  | inl here ↦
      rw (here, here)
        (ap (λ (o : Order). some (record o { status = status }))
          (found_first id row os order here h))
  | inr other ↦ rw (other, other) (find_moved status id os order (ground (arith, other, h)))
]

-- Neither the stamp nor the message fails a step.
tail_ok :
    {o : Orm} {c : Cell} (mail : Option Mail) (column : Option Column) (id : ℕ)
    (message : Mail → Message) (w : World o c)
    → ((stamp o c column id >> notify mail message) w).0 ≡ ok tt
unfolding stamp pure attempt notify ◌>>=◌
tail_ok none none id message w = refl
tail_ok none (some column) id message w = refl
tail_ok (some m) none id message w = refl
tail_ok (some m) (some column) id message w = refl

module _ (o : Orm) (laws : IsOrm o) (answers : Answers o) (c : Cell) (mail : Option Mail) where
  -- A step that may be taken succeeds.
  advance_succeeds :
      (id : ℕ) (step : Step) (w : World o c) (order : Order) (current : OrderStatus)
      (chosen : Package)
      → find (λ row. row.id == id) (o.tables w.db).orders ≡ some order
      → from_slug order.status ≡ some current
      → can_transition_to current step.to ≡ true
      → Package.parse order.«package» ≡ ok chosen
      → (advance o c mail id step w).0 ≡ ok tt
  unfolding advance load_order stamp pure read require write attempt notify guard ◌>>=◌
  advance_succeeds id step w order current chosen found was may parsed =
      let (r, e) = answers.finds id w.db in
      let read_order : o.find_order id w.db ≡ ok (some order) =
        e ∙ ap ok (laws.find_order_ok id w.db r e ∙ found) in
      rw
        (
          read_order,
          was,
          may,
          parsed,
          answers.executes (set_status (Status.slug step.to) order.id) w.db,
        )
        (tail_ok mail step.stamp order.id _
          (record w { db = (o.execute (set_status (Status.slug step.to) order.id) w.db).1 }))

  stamp-orders :
      (column : Option Column) (id : ℕ) (d : o.Db)
      → (o.tables (after_stamp o column id d)).orders ≡ (o.tables d).orders
  unfolding perform
  stamp-orders none id d = refl
  stamp-orders (some column) id d =
      ap (λ t. t.orders)
        (laws.execute_ok (stamp_delivery column id) d
          (answers.executes (stamp_delivery column id) d))

  -- What a step that succeeds makes of the order and of the outbox.
  abbrev pub Moved : ℕ → Step → Order → Package → World o c → World o c → Type 0
  Moved id step order chosen w w' =
      (find (λ row. row.id == id) (o.tables w'.db).orders
        ≡ some (record order { status = Status.slug step.to }))
      × (w'.outbox
          ≡ w.outbox
            ++ handed mail (λ m. step.message order.company chosen order.email m.from m.studio))

  pub moved_orders :
      (id : ℕ) (step : Step) (before : o.Db) (order : Order) (d : o.Db)
      → find (λ row. row.id == id) (o.tables before).orders ≡ some order
      → d
        ≡ after_stamp o step.stamp order.id
            (o.execute (set_status (Status.slug step.to) order.id) before).1
      → find (λ row. row.id == id) (o.tables d).orders
        ≡ some (record order { status = Status.slug step.to })
  unfolding perform
  moved_orders id step before order d found e =
      let update = set_status (Status.slug step.to) order.id in
      let same : (o.tables d).orders
          ≡ map (with_status (Status.slug step.to) order.id) (o.tables before).orders =
        ap (λ x. (o.tables x).orders) e
        ∙ (stamp-orders step.stamp order.id (o.execute update before).1
            ∙ ap (λ t. t.orders)
                (laws.execute_ok update before (answers.executes update before))) in
      ap (find (λ row. row.id == id)) same
      ∙ subst
          (λ n.
            find (λ row. row.id == id)
              (map (with_status (Status.slug step.to) n) (o.tables before).orders)
            ≡ some (record order { status = Status.slug step.to }))
          (sym (
            (==_iff order.id id).0
              (find_passes (λ row. row.id == id) (o.tables before).orders found)))
          (find_moved (Status.slug step.to) id (o.tables before).orders order found)

  some_same : {A : Type 0} (a b : A) (x : Option A) → x ≡ some a → x ≡ some b → a ≡ b
  some_same a b x h k = ground arith

  ok_same : {E A : Type 0} (a b : A) (x : Result E A) → x ≡ ok a → x ≡ ok b → a ≡ b
  ok_same a b x h k = ground arith

  advance-Moved :
      (id : ℕ) (step : Step) (w : World o c) (order : Order) (chosen : Package)
      → find (λ row. row.id == id) (o.tables w.db).orders ≡ some order
      → Package.parse order.«package» ≡ ok chosen
      → (advance o c mail id step w).0 ≡ ok tt
      → Moved id step order chosen w (advance o c mail id step w).1
  advance-Moved id step w order chosen found parsed h =
      let done = advance_done o laws c mail id step w h in
      let w' = (advance o c mail id step w).1 in
      let same : done.order ≡ order = some_same done.order order _ done.found found in
      let parsed_again : Package.parse done.order.«package» ≡ ok chosen =
        subst (λ (r : Order). Package.parse r.«package» ≡ ok chosen) (sym same) parsed in
      subst (λ r. Moved id step r chosen w w') same
        (subst (λ p. Moved id step done.order p w w')
          (ok_same done.chosen chosen _ done.parsed parsed_again)
          (moved_orders id step w.db done.order w'.db done.found done.db_after, done.told))

  -- One step that may be taken, and what it makes of the order.
  pub step_taken :
      (id : ℕ) (step : Step) (w : World o c) (order : Order) (current : OrderStatus)
      (chosen : Package)
      → find (λ row. row.id == id) (o.tables w.db).orders ≡ some order
      → from_slug order.status ≡ some current
      → can_transition_to current step.to ≡ true
      → Package.parse order.«package» ≡ ok chosen
      → ((advance o c mail id step w).0 ≡ ok tt)
        × Moved id step order chosen w (advance o c mail id step w).1
  step_taken id step w order current chosen found was may parsed =
      let success = advance_succeeds id step w order current chosen found was may parsed in
      (success, advance-Moved id step w order chosen found parsed success)
