-- ===== src/Studio/Workflow/Steps.antt =====
-- What `advance` has done, by how it ended.
use hemsidor.Prelude.{
  ℕ, Option, none, some, ◌≡◌, sym, inl, inr, true, ◌++◌, find, ◌==◌, ok, err, arith, Result-cases,
  Option-cases,
}
use mathlib.Core.List.{append-nil}
use hemsidor.Core.Status
use hemsidor.Core.Status.{OrderStatus, from_slug, can_transition_to}
use hemsidor.Core.Package
use hemsidor.Core.Package.{Package}
use hemsidor.Studio.Models.{Order}
use hemsidor.Studio.Tables.{Column, set_status, stamp_delivery}
use hemsidor.Studio.Backend.{Orm, IsOrm}
use hemsidor.Handover.Cell.{Cell}
use hemsidor.Studio.Monad.{
  World, Mail, Refusal, handed, pure, read, require, write, attempt, notify, guard, ◌>>=◌,
}
use hemsidor.Studio.Workflow.{Step, load_order, stamp, advance}

module _ (o : Orm) where
  -- The database after the stamp of a step, which may have failed without a word.
  abbrev pub after_stamp : Option Column → ℕ → o.Db → o.Db
  after_stamp none order_id d = d
  after_stamp (some column) order_id d = (o.execute (stamp_delivery column order_id) d).1

module _ (o : Orm) (laws : IsOrm o) (c : Cell) (mail : Option Mail) where
  -- With a database that keeps to IsOrm, a step that is refused, for whatever reason, leaves the
  -- tables as they were and hands no message to the mailer.
  pub advance_refused :
      (id : ℕ) (step : Step) (w : World o c) (why : Refusal)
      → (advance o c mail id step w).0 ≡ err why
      → (o.tables (advance o c mail id step w).1.db ≡ o.tables w.db)
        × ((advance o c mail id step w).1.outbox ≡ w.outbox)
  unfolding advance load_order stamp pure read require write attempt notify guard ◌>>=◌
  advance_refused id step w why h = grind (arith, laws.execute_err)

  -- What a step that succeeded has found and done.
  pub record Advanced (id : ℕ) (step : Step) (w w' : World o c) : Type 0 where
    pub order : Order
    pub current : OrderStatus
    pub chosen : Package
    pub found : find (λ row. row.id == id) (o.tables w.db).orders ≡ some order
    pub was : from_slug order.status ≡ some current
    pub may : can_transition_to current step.to ≡ true
    pub parsed : Package.parse order.«package» ≡ ok chosen
    pub saved : (o.execute (set_status (Status.slug step.to) order.id) w.db).0 ≡ ok tt
    pub db_after :
        w'.db
        ≡ after_stamp o step.stamp order.id
            (o.execute (set_status (Status.slug step.to) order.id) w.db).1
    pub told :
        w'.outbox
        ≡ w.outbox
          ++ handed mail (λ m. step.message order.company chosen order.email m.from m.studio)
    pub unsigned : w'.cell ≡ w.cell

  -- With a database that keeps to IsOrm, a step that succeeds: the order was found with a status
  -- from which the step may lead and a readable package; the status was saved, the stamp of the
  -- step tried after it and nothing else written; the one message handed to the mailer, where
  -- there is one, is that of the step for this order; and nothing was signed.
  pub advance_done :
      (id : ℕ) (step : Step) (w : World o c)
      → (advance o c mail id step w).0 ≡ ok tt
      → Advanced id step w (advance o c mail id step w).1
  unfolding advance load_order stamp pure read require write attempt notify guard ◌>>=◌
  advance_done id step w h = elim (Result-cases (o.find_order id w.db)) [
    | inr (e, e1) ↦ absurd (ground arith)
    | inl (none, e1) ↦ absurd (ground arith)
    | inl (some order, e1) ↦ elim (Option-cases (from_slug order.status)) [
      | inl e2 ↦ absurd (ground arith)
      | inr (current, e2) ↦ elim (Result-cases (Package.parse order.«package»)) [
        | inr (e, e3) ↦ absurd (ground arith)
        | inl (chosen, e3) ↦ record {
          order = order;
          current = current;
          chosen = chosen;
          found = sym (laws.find_order_ok id w.db (some order) e1);
          was = e2;
          may = ground arith;
          parsed = e3;
          saved = ground arith;
          db_after = ground arith;
          told = ground (arith, append-nil w.outbox);
          unsigned = ground arith;
        }
      ]
    ]
  ]
