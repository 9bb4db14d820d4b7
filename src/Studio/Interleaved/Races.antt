-- ===== src/Studio/Interleaved/Races.antt =====
-- What the statements that check nothing let through when two operators work on one order.
pub mod Accept
pub mod Refund
use hemsidor.Prelude.{
  ℕ, true, ◌≡◌, refl, sym, ap, ◌∙◌, Option, none, some, List, find, ok, ◌==◌, ==_iff, find_passes,
}
use mathlib.Core.Path.{subst}
use hemsidor.Core.Status
use hemsidor.Core.Package
use hemsidor.Studio.Models.{Order}
use hemsidor.Studio.Tables.{Column, set_status, perform}
use hemsidor.Studio.Backend.{Orm, IsOrm}
use hemsidor.Handover.Cell.{Cell}
use hemsidor.Studio.Monad.{World, Mail}
use hemsidor.Studio.Workflow.{Step, advance}
use hemsidor.Studio.Workflow.Steps.{after_stamp, Advanced, advance_done}
use hemsidor.Studio.Progress.{Answers, moved_orders}
use hemsidor.Studio.Interleaved.{Shared, behind, outrun}
use hemsidor.Studio.Interleaved.Runs.{advance_runs}

same_key :
    (id : ℕ) (xs ys : List Order) (x y : Order)
    → find (λ row. row.id == id) xs ≡ some x
    → find (λ row. row.id == id) ys ≡ some y
    → y.id ≡ x.id
same_key id xs ys x y e f =
    (==_iff y.id id).0 (find_passes (λ row. row.id == id) ys f)
    ∙ sym ((==_iff x.id id).0 (find_passes (λ row. row.id == id) xs e))

module _ (o : Orm) (laws : IsOrm o) (answers : Answers o) where
  pub reads_order :
      (id : ℕ) (d : o.Db) (order : Order)
      → find (λ row. row.id == id) (o.tables d).orders ≡ some order
      → o.find_order id d ≡ ok (some order)
  reads_order id d order found =
      let (r, e) = answers.finds id d in e ∙ ap ok (laws.find_order_ok id d r e ∙ found)

module _ (o : Orm) (laws : IsOrm o) (answers : Answers o) (c : Cell) (mail : Option Mail)
    (act : o.Db → o.Db) where
  stamp_behind :
      (column : Option Column) (id : ℕ) (d : o.Db)
      → (after_stamp (behind o act) column id (record { db = d; writes = 1 })).db
        ≡ after_stamp o column id d
  stamp_behind none id d = refl
  stamp_behind (some column) id d = refl

  -- What the step's statements leave, the others having come before the first.
  abbrev pub saved_over : Step → ℕ → o.Db → Shared o
  saved_over step key d =
      after_stamp (behind o act) step.stamp key
        ((behind o act).execute (set_status (Status.slug step.to) key)
          (record { db = d; writes = 0 })).1

  saved_over_lem :
      (id : ℕ) (step : Step) (key : ℕ) (d : o.Db) (left : Order)
      → find (λ row. row.id == id) (o.tables (act d)).orders ≡ some left
      → left.id ≡ key
      → find (λ row. row.id == id) (o.tables (saved_over step key d).db).orders
        ≡ some (record left { status = Status.slug step.to })
  saved_over_lem id step key d left found same =
      moved_orders o laws answers c mail id step (act d) left (saved_over step key d).db found (
        stamp_behind step.stamp key _
        ∙ ap
            (λ n.
              after_stamp o step.stamp n (o.execute (set_status (Status.slug step.to) n) (act d)).1)
            (sym same))

  -- With a database that keeps to IsOrm and answers: where a step on an order succeeds while nobody
  -- else is at work, it succeeds too whatever the others do to the database between its check and
  -- its write, as long as they leave the order there. The order then has the status of the step,
  -- whatever status they gave it, with its other columns as they left them; and the same message is
  -- handed to the mailer.
  pub advance-outrun :
      (id : ℕ) (step : Step) (w : World o c) (left : Order)
      → (advance o c mail id step w).0 ≡ ok tt
      → find (λ row. row.id == id) (o.tables (act w.db)).orders ≡ some left
      → ((advance (behind o act) c mail id step (outrun act w)).0 ≡ ok tt)
        × (find
              (λ row. row.id == id)
              (o.tables (advance (behind o act) c mail id step (outrun act w)).1.db.db).orders
            ≡ some (record left { status = Status.slug step.to }))
        × ((advance (behind o act) c mail id step (outrun act w)).1.outbox
            ≡ (advance o c mail id step w).1.outbox)
  advance-outrun id step w left success there =
      let done = advance_done o laws c mail id step w success in
      let run =
        advance_runs {o = behind o act} mail id step (outrun act w) done.order done.current
          done.chosen (reads_order o laws answers id w.db done.order done.found) done.was done.may
          done.parsed
          (answers.executes (set_status (Status.slug step.to) done.order.id) (act w.db)) in
      let saved =
        saved_over_lem id step done.order.id w.db left there
          (same_key id _ _ done.order left done.found there) in
      (
        ap (λ r. r.0) run,
        ap (λ r. find (λ row. row.id == id) (o.tables r.1.db.db).orders) run ∙ saved,
        ap (λ r. r.1.outbox) run ∙ sym done.told,
      )
