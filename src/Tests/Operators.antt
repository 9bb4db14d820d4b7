-- ===== src/Tests/Operators.antt =====
-- The theorems on several operators, at a shop with one order.
use hemsidor.Prelude.{map, ℕ, ◌≡◌, refl, true, none, some, [], ◌∷◌, find, ◌==◌, ok, Result}
use hemsidor.Text.{codes, text_eq, is_whitespace, eq_ignore_ascii_case, to_ascii_lower}
use hemsidor.Text.Trim.{trim, trim_start, trim_end}
use hemsidor.Core.Status.{avbruten, slug, from_slug, can_transition_to, next_allowed}
use hemsidor.Core.Package
use hemsidor.Studio.Models.{Order}
use hemsidor.Studio.Tables.{Tables, perform}
use hemsidor.Studio.Monad.{
  World, Refusal, pure, require, read, write, attempt, notify, guard, ◌>>=◌,
}
use hemsidor.Studio.Workflow.{load_order, stamp, advance}
use hemsidor.Studio.Accept.{accept_one, moment}
use hemsidor.Studio.Publication.{non_blank}
use hemsidor.Studio.Cancellation.{refund_one, delivery_for}
use hemsidor.Studio.Actions.{acceptance_step, cancel_step, replay}
use hemsidor.Studio.Interleaved.{interleaved, behind, outrun}
use hemsidor.Studio.Interleaved.Retains.{Retains}
use hemsidor.Studio.Interleaved.History.{replay-Retains, replay-Allowed}
use hemsidor.Studio.Interleaved.Races.{advance-outrun}
use hemsidor.Studio.Interleaved.Races.Refund.{AnswersAll, refunding, refund_one-outrun}
use hemsidor.Studio.Interleaved.Races.Accept.{Inserts, accepting, Duplicated, accept_one-outrun}
use hemsidor.Tests.Shop.{shop, post_office}
use hemsidor.Tests.Memory.{next_key, memory, memory-Answers, memory-IsOrm, notebook, request}

memory-AnswersAll : AnswersAll memory
memory-AnswersAll = record {
  answers = memory-Answers;
  lists_deliveries = λ d. (d.deliveries, refl);
}

memory-Inserts : Inserts memory
memory-Inserts = record {
  answers = memory-Answers;
  customer = λ r d. (next_key (map (λ row. row.id) d.customers), refl);
  site = λ r d. (next_key (map (λ row. row.id) d.sites), refl);
  delivery = λ r d. (next_key (map (λ row. row.id) d.deliveries), refl);
}

-- Another operator calls the order off before each write.
abbrev calling_off : ℕ → Tables → Tables
calling_off n d =
    (replay memory notebook none true ((codes "cancel_order", 7 ∷ []) ∷ [])
      (record { db = d; cell = []; outbox = [] })).db

abbrev shared_shop : World (interleaved memory calling_off (λ d. d)) notebook
shared_shop = record {
  db = record { db = (shop (codes "utkast_skickat") none).db; writes = 0 };
  cell = [];
  outbox = [];
}

replay-Retains_example :
    Retains shared_shop.db.db
      (replay
        (interleaved memory calling_off (λ d. d))
        notebook
        post_office
        true
        ((codes "record_acceptance", 7 ∷ []) ∷ [])
        shared_shop).db.db
replay-Retains_example =
    replay-Retains memory memory-IsOrm notebook post_office true calling_off (λ d. d)
      (λ n d.
        replay-Allowed memory memory-IsOrm notebook none true ((codes "cancel_order", 7 ∷ []) ∷ [])
          (record { db = d; cell = []; outbox = [] }))
      ((codes "record_acceptance", 7 ∷ []) ∷ []) shared_shop

-- Another operator calls the order off while this one records that the customer accepts.
abbrev proposed : World memory notebook
proposed = shop (codes "utkast_skickat") none

abbrev called_off : Tables → Tables
called_off d =
    (advance memory notebook none 7 cancel_step (record { db = d; cell = []; outbox = [] })).1.db

abbrev accepted_late : World (behind memory called_off) notebook
accepted_late =
    (advance (behind memory called_off) notebook post_office 7 acceptance_step
      (outrun called_off proposed)).1

ready : (advance memory notebook post_office 7 acceptance_step proposed).0 ≡ ok tt
unfolding advance load_order stamp pure read require guard write attempt notify ◌>>=◌ text_eq
    acceptance_step from_slug slug can_transition_to next_allowed Package.parse Package.slug trim
    trim_start trim_end is_whitespace Package.named_by eq_ignore_ascii_case to_ascii_lower
ready = refl

-- Called off by the other operator.
abbrev cancelled : Order
cancelled = record (request (codes "utkast_skickat") none) { status = slug avbruten }

called_off_first : find (λ row. row.id == 7) (called_off proposed.db).orders ≡ some cancelled
unfolding advance load_order stamp pure read require guard write attempt notify ◌>>=◌ text_eq
    cancel_step from_slug slug can_transition_to next_allowed Package.parse Package.slug trim
    trim_start trim_end is_whitespace Package.named_by eq_ignore_ascii_case to_ascii_lower perform
called_off_first = refl

advance-outrun_example :
    ((advance
        (behind memory called_off)
        notebook
        post_office
        7
        acceptance_step
        (outrun called_off proposed)).0
      ≡ ok tt)
    × (find (λ row. row.id == 7) accepted_late.db.db.orders
        ≡ some (record cancelled { status = slug acceptance_step.to }))
    × (accepted_late.outbox
        ≡ (advance memory notebook post_office 7 acceptance_step proposed).1.outbox)
advance-outrun_example =
    advance-outrun memory memory-IsOrm memory-Answers notebook post_office called_off 7
      acceptance_step proposed cancelled ready called_off_first

-- Two refunds of one order.
abbrev to_refund : World memory notebook
to_refund = shop (codes "avbruten") (some 1)

refund_ready : (refund_one memory notebook post_office 7 to_refund).0 ≡ ok tt
unfolding refund_one load_order pure read require guard write notify ◌>>=◌ text_eq delivery_for
    from_slug slug Package.parse Package.slug trim trim_start trim_end is_whitespace non_blank
    Package.named_by eq_ignore_ascii_case to_ascii_lower
refund_ready = refl

abbrev refunded_late :
    Result Refusal (Unit {0})
    × World (behind memory (refunding memory notebook post_office 7 to_refund)) notebook
refunded_late =
    refund_one (behind memory (refunding memory notebook post_office 7 to_refund)) notebook
      post_office 7 (outrun (refunding memory notebook post_office 7 to_refund) to_refund)

refund_one-outrun_example :
    (refunded_late.0 ≡ ok tt)
    × (refunded_late.1.db.db ≡ (refund_one memory notebook post_office 7 to_refund).1.db)
    × (refunded_late.1.outbox ≡ (refund_one memory notebook post_office 7 to_refund).1.outbox)
refund_one-outrun_example =
    refund_one-outrun memory memory-IsOrm memory-AnswersAll notebook post_office 7 to_refund
      refund_ready

-- Two acceptances of one order.
abbrev to_accept : World memory notebook
to_accept = shop (codes "ny") none

accept_ready : (accept_one memory notebook 7 to_accept).0 ≡ ok tt
unfolding accept_one load_order read require guard moment write ◌>>=◌ text_eq
accept_ready = refl

abbrev accepted_again :
    Result Refusal (Unit {0})
    × World (behind memory (accepting memory notebook 7 to_accept)) notebook
accepted_again =
    accept_one (behind memory (accepting memory notebook 7 to_accept)) notebook 7
      (outrun (accepting memory notebook 7 to_accept) to_accept)

accept_one-outrun_example :
    (accepted_again.0 ≡ ok tt) × Duplicated 7 to_accept.db accepted_again.1.db.db
accept_one-outrun_example =
    accept_one-outrun memory memory-IsOrm memory-Inserts notebook 7 to_accept accept_ready
