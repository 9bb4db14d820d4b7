-- ===== src/Tests/Studio.antt =====
-- The theorems on the back office at a shop with one order.
use hemsidor.Prelude.{◌↔◌, find, ◌==◌, ◌≡◌, refl, true, none, some, [], ◌∷◌, ok, err}
use hemsidor.Text.{codes, text_eq, is_whitespace, eq_ignore_ascii_case, to_ascii_lower}
use hemsidor.Text.Trim.{trim, trim_start, trim_end}
use hemsidor.Core.Status.{ny, slug, from_slug, can_transition_to, next_allowed}
use hemsidor.Core.Package
use hemsidor.Studio.Models.{Order}
use hemsidor.Studio.Monad.{
  order_missing, pure, require, read, read_or, write, attempt, notify, guard, ◌>>=◌,
}
use hemsidor.Studio.Workflow.{load_order, stamp, advance}
use hemsidor.Studio.Workflow.Steps.{Advanced, advance_done, advance_refused}
use hemsidor.Studio.Accept.{accept_one, moment}
use hemsidor.Studio.Publication.{publish_one, non_blank, site_for, domain_name, sign_claims}
use hemsidor.Studio.Cancellation.{refund_one, delivery_for}
use hemsidor.Studio.Actions.{proposal_step}
use hemsidor.Studio.Grows.{Grows}
use hemsidor.Studio.Lives.{status_of, Walks, replay-Walks}
use hemsidor.Studio.Panel.Readonly.{Protected, replay-Protected}
use hemsidor.Studio.Actions.{replay}
use hemsidor.Studio.Grows.History.{replay-Grows}
use hemsidor.Studio.Outcomes.Refund.{Refunded, refund_one-Refunded}
use hemsidor.Studio.Outcomes.Acceptance.{Accepted, accept_one-Accepted}
use hemsidor.Studio.Outcomes.Publication.{Published, publish_one-Published}
use hemsidor.Studio.Progress.Publishing.{Publishable, publish_one_iff}
use hemsidor.Tests.Shop.{shop, post_office}
use hemsidor.Tests.Memory.{memory, memory-Answers, memory-IsOrm, notebook, request}

replay-Grows_example :
    Grows
      (shop (codes "ny") none).db
      (replay memory notebook post_office true
        ((codes "accept_order", 7 ∷ []) ∷ (codes "send_proposal", 7 ∷ 8 ∷ []) ∷ [])
        (shop (codes "ny") none)).db
replay-Grows_example =
    replay-Grows memory memory-IsOrm notebook post_office true
      ((codes "accept_order", 7 ∷ []) ∷ (codes "send_proposal", 7 ∷ 8 ∷ []) ∷ [])
      (shop (codes "ny") none) (refl, tt)

-- The order is found, and it is new.
shop_new : status_of 7 (shop (codes "ny") none).db.orders ≡ some ny
unfolding status_of from_slug text_eq slug
shop_new = refl

replay-Walks_example : Walks ny (
    status_of 7
      (memory.tables
        (replay memory notebook post_office true
          ((codes "accept_order", 7 ∷ []) ∷ (codes "send_proposal", 7 ∷ 8 ∷ []) ∷ [])
          (shop (codes "ny") none)).db).orders)
replay-Walks_example =
    replay-Walks memory memory-IsOrm notebook post_office true
      ((codes "accept_order", 7 ∷ []) ∷ (codes "send_proposal", 7 ∷ 8 ∷ []) ∷ [])
      (shop (codes "ny") none) 7 ny (refl, tt) shop_new

replay-Protected_example :
    (after : Order) × (find
        (λ row. row.id == 7)
        (memory.tables
          (replay memory notebook post_office true
            ((codes "accept_order", 7 ∷ []) ∷ [])
            (shop (codes "ny") none)).db).orders
      ≡ some after)
    × Protected (request (codes "ny") none) after
replay-Protected_example =
    replay-Protected memory memory-IsOrm notebook post_office true
      ((codes "accept_order", 7 ∷ []) ∷ []) (shop (codes "ny") none) 7 (request (codes "ny") none)
      (refl, tt) refl

accept_ok : (accept_one memory notebook 7 (shop (codes "ny") none)).0 ≡ ok tt
unfolding accept_one load_order read require guard moment write ◌>>=◌ text_eq
accept_ok = refl

proposal_ok :
    (advance memory notebook post_office 7 proposal_step (shop (codes "ny") none)).0 ≡ ok tt
unfolding advance load_order stamp pure read require guard write attempt notify ◌>>=◌ text_eq
    proposal_step from_slug slug can_transition_to next_allowed Package.parse Package.slug trim
    trim_start trim_end is_whitespace Package.named_by eq_ignore_ascii_case to_ascii_lower
proposal_ok = refl

missing :
    (advance memory notebook post_office 8 proposal_step (shop (codes "ny") none)).0
    ≡ err order_missing
unfolding advance load_order read require ◌>>=◌
missing = refl

publish_ok :
    (publish_one memory notebook post_office true 7 (shop (codes "godkand") (some 1))).0 ≡ ok tt
unfolding publish_one load_order pure read read_or require guard write attempt notify ◌>>=◌ text_eq
    site_for domain_name sign_claims from_slug slug can_transition_to next_allowed trim trim_start
    trim_end is_whitespace non_blank
publish_ok = refl

refund_ok : (refund_one memory notebook post_office 7 (shop (codes "avbruten") (some 1))).0 ≡ ok tt
unfolding refund_one load_order pure read require guard write notify ◌>>=◌ text_eq delivery_for
    from_slug slug Package.parse Package.slug trim trim_start trim_end is_whitespace non_blank
    Package.named_by eq_ignore_ascii_case to_ascii_lower
refund_ok = refl

advance_done_example :
    Advanced memory memory-IsOrm notebook post_office 7 proposal_step
      (shop (codes "ny") none)
      (advance memory notebook post_office 7 proposal_step (shop (codes "ny") none)).1
advance_done_example =
    advance_done memory memory-IsOrm notebook post_office 7 proposal_step (shop (codes "ny") none)
      proposal_ok

advance_refused_example :
    ((advance memory notebook post_office 8 proposal_step (shop (codes "ny") none)).1.db
      ≡ (shop (codes "ny") none).db)
    × ((advance memory notebook post_office 8 proposal_step (shop (codes "ny") none)).1.outbox ≡ [])
advance_refused_example =
    advance_refused memory memory-IsOrm notebook post_office 8 proposal_step
      (shop (codes "ny") none) order_missing missing

accept_one-Accepted_example :
    Accepted 7 9
      (shop (codes "ny") none).db
      (accept_one memory notebook 7 (shop (codes "ny") none)).1.db
    × ((accept_one memory notebook 7 (shop (codes "ny") none)).1.outbox ≡ [])
accept_one-Accepted_example =
    accept_one-Accepted memory memory-IsOrm notebook 7 (shop (codes "ny") none) accept_ok

publish_one-Published_example :
    Published memory memory-IsOrm notebook post_office true 7
      (shop (codes "godkand") (some 1))
      (publish_one memory notebook post_office true 7 (shop (codes "godkand") (some 1))).1
publish_one-Published_example =
    publish_one-Published memory memory-IsOrm notebook post_office true 7
      (shop (codes "godkand") (some 1)) publish_ok

refund_one-Refunded_example :
    Refunded memory memory-IsOrm notebook post_office 7
      (shop (codes "avbruten") (some 1))
      (refund_one memory notebook post_office 7 (shop (codes "avbruten") (some 1))).1
refund_one-Refunded_example =
    refund_one-Refunded memory memory-IsOrm notebook post_office 7
      (shop (codes "avbruten") (some 1)) refund_ok

refund_missing :
    (refund_one memory notebook post_office 8 (shop (codes "avbruten") (some 1))).0
    ≡ err order_missing
unfolding refund_one load_order read require ◌>>=◌
refund_missing = refl

publish_one_iff_example :
    ((publish_one memory notebook post_office true 7 (shop (codes "godkand") (some 1))).0 ≡ ok tt)
    ↔ Publishable 7 (memory.tables (shop (codes "godkand") (some 1)).db)
publish_one_iff_example =
    publish_one_iff memory memory-IsOrm memory-Answers notebook true post_office 7
      (shop (codes "godkand") (some 1))
