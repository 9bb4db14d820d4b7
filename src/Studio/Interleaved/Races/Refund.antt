-- ===== src/Studio/Interleaved/Races/Refund.antt =====
-- crates/hemsidor24-admin/src/cancellation.rs: two operators record the refund of one order. The
-- UPDATE stamps the delivery only where it bears no stamp, but nobody asks how many rows it changed.
use hemsidor.Prelude.{
  ℕ, ◌≡◌, refl, sym, ap, ap₂, ◌∙◌, inl, inr, Option, none, some, List, [], ◌∷◌, map, find, ok, ◌==◌,
  Bool-cases,
}
use hemsidor.Studio.Models.{Delivery}
use hemsidor.Studio.Tables.{Tables, is_id, first_time, with_refund, stamp_refunded, perform}
use hemsidor.Studio.Backend.{Orm, IsOrm}
use hemsidor.Handover.Cell.{Cell}
use hemsidor.Studio.Monad.{World, Mail}
use hemsidor.Studio.Cancellation.{refund_one}
use hemsidor.Studio.Outcomes.Refund.{refund_one-Refunded}
use hemsidor.Studio.Progress.{Answers}
use hemsidor.Studio.Interleaved.{behind, outrun}
use hemsidor.Studio.Interleaved.Runs.{refund_one_runs}
use hemsidor.Studio.Interleaved.Races.{reads_order}

-- The second stamp changes nothing.
first_time_again :
    (now later : ℕ) (o : Option ℕ) → first_time later (first_time now o) ≡ first_time now o
first_time_again now later none = refl
first_time_again now later (some t) = refl

with_refund_again :
    (now later id : ℕ) (d : Delivery)
    → with_refund later id (with_refund now id d) ≡ with_refund now id d
with_refund_again now later id d = elim (Bool-cases (d.id == id)) [
  | inl here ↦
      rw (here, here)
        (ap (λ (t : Option ℕ). record d { refunded_at = t })
          (first_time_again now later d.refunded_at))
  | inr other ↦ rw (other, other) refl
]

refunds_again :
    (now later id : ℕ) (ds : List Delivery)
    → map (with_refund later id) (map (with_refund now id) ds) ≡ map (with_refund now id) ds
refunds_again now later id [] = refl
refunds_again now later id (d ∷ ds) =
    ap₂ (λ x xs. x ∷ xs) (with_refund_again now later id d) (refunds_again now later id ds)

stamp_refunded_again :
    (now later id : ℕ) (t : Tables)
    → perform later (stamp_refunded id) (perform now (stamp_refunded id) t)
      ≡ perform now (stamp_refunded id) t
unfolding perform
stamp_refunded_again now later id t =
    ap (λ (ds : List Delivery). record t { deliveries = ds })
      (refunds_again now later id t.deliveries)

-- A database that answers, also where it is asked for its deliveries.
pub record AnswersAll (o : Orm) : Type 0 where
  pub answers : Answers o
  pub lists_deliveries : (d : o.Db) → (rows : List Delivery) × (o.all_deliveries d ≡ ok rows)

module _ (o : Orm) (c : Cell) (mail : Option Mail) where
  -- The other operator records the refund of the same order, from beginning to end.
  abbrev pub refunding : ℕ → World o c → o.Db → o.Db
  refunding id w d = (refund_one o c mail id (record w { db = d })).1.db

module _ (o : Orm) (laws : IsOrm o) (all : AnswersAll o) (c : Cell) (mail : Option Mail) where
  -- With a database that keeps to IsOrm and answers: where a refund can be recorded and two
  -- operators do so at once, the second having checked before the first has written, both succeed.
  -- The tables are as after the first alone, and each hands the same notice to the mailer.
  pub refund_one-outrun :
      (id : ℕ) (w : World o c)
      → (refund_one o c mail id w).0 ≡ ok tt
      → ((refund_one
            (behind o (refunding o c mail id w))
            c
            mail
            id
            (outrun (refunding o c mail id w) w)).0
          ≡ ok tt)
        × (o.tables
              (refund_one
                (behind o (refunding o c mail id w))
                c
                mail
                id
                (outrun (refunding o c mail id w) w)).1.db.db
            ≡ o.tables (refund_one o c mail id w).1.db)
        × ((refund_one
              (behind o (refunding o c mail id w))
              c
              mail
              id
              (outrun (refunding o c mail id w) w)).1.outbox
            ≡ (refund_one o c mail id w).1.outbox)
  refund_one-outrun id w success =
      let done = refund_one-Refunded o laws c mail id w success in
      let (sites, listed) = all.answers.lists_sites w.db in
      let (rows, given) = all.lists_deliveries w.db in
      let run =
        refund_one_runs {o = behind o (refunding o c mail id w)} mail id
          (outrun (refunding o c mail id w) w) done.order done.chosen sites done.site rows
          done.delivery done.reason (reads_order o laws all.answers id w.db done.order done.found)
          done.called_off done.parsed listed
          (ap (find (λ s. is_id s.order_id id)) (laws.all_sites_ok w.db sites listed)
            ∙ done.of_order)
          given
          (ap (find (λ d. is_id d.site_id done.site.id)) (laws.all_deliveries_ok w.db rows given)
            ∙ done.of_site)
          done.given done.first
          (all.answers.executes (stamp_refunded done.delivery.id) (refunding o c mail id w w.db)) in
      (
        ap (λ r. r.0) run,
        ap (λ r. o.tables r.1.db.db) run
            ∙ (laws.execute_ok (stamp_refunded done.delivery.id) (refunding o c mail id w w.db) (
                  all.answers.executes (stamp_refunded done.delivery.id)
                    (refunding o c mail id w w.db))
                ∙ (ap
                      (perform (o.now (refunding o c mail id w w.db))
                        (stamp_refunded done.delivery.id))
                      done.recorded
                    ∙ (stamp_refunded_again (o.now w.db) _ done.delivery.id (o.tables w.db)
                        ∙ sym done.recorded))),
        ap (λ r. r.1.outbox) run ∙ sym done.told,
      )
