-- ===== src/Studio/Actions/Closure.antt =====
-- A preorder on worlds that each action on one order respects is respected by any history of bulk
-- actions.
use hemsidor.Prelude.{ℕ, Bool, ◌≡◌, refl, Option, none, some, List, [], ◌∷◌, find, All, find-All}
use hemsidor.Text.{Text, text_eq}
use hemsidor.Studio.Backend.{Orm}
use hemsidor.Handover.Cell.{Cell}
use hemsidor.Studio.Monad.{World, Action, Mail}
use hemsidor.Studio.Workflow.{Step, advance}
use hemsidor.Studio.Accept.{accept_one}
use hemsidor.Studio.Publication.{publish_one}
use hemsidor.Studio.Cancellation.{refund_one}
use hemsidor.Studio.Actions.{
  BulkActionResult, no_rows, run_from, run_bulk, tally, OrderAction, accept_orders, send_proposals,
  record_acceptances, publish_sites, cancel_orders, record_refunds, order_actions,
  execute_bulk_action, dispatch, proposal_step, acceptance_step, cancel_step, replay,
}

pub record Preorder (o : Orm) (c : Cell) (R : World o c → World o c → Type 0) : Type 0 where
  pub stays : (w : World o c) → R w w
  pub goes_on : (u v w : World o c) → R u v → R v w → R u w

-- Each action on one order goes from a world to a later one.
pub record Respects (o : Orm) (c : Cell) (mail : Option Mail) (signing : Bool)
    (R : World o c → World o c → Type 0) : Type 0 where
  pub accepts : (id : ℕ) (w : World o c) → R w (accept_one o c id w).1
  pub advances : (id : ℕ) (step : Step) (w : World o c) → R w (advance o c mail id step w).1
  pub publishes : (id : ℕ) (w : World o c) → R w (publish_one o c mail signing id w).1
  pub refunds : (id : ℕ) (w : World o c) → R w (refund_one o c mail id w).1

module _ {o : Orm} {c : Cell} {R : World o c → World o c → Type 0} (preorder : Preorder o c R) where
  run_from_respects :
      (one : ℕ → Action o c (Unit {0}))
      → ((id : ℕ) (w : World o c) → R w (one id w).1)
      → (ids : List ℕ) (result : BulkActionResult) (w : World o c)
      → R w (run_from one ids result w).1
  unfolding run_from
  run_from_respects one each [] result w = preorder.stays w
  run_from_respects one each (id ∷ ids) result w =
      preorder.goes_on w (one id w).1 _ (each id w)
        (run_from_respects one each ids (tally id (one id w).0 result) (one id w).1)

  run_bulk_respects :
      (one : ℕ → Action o c (Unit {0}))
      → ((id : ℕ) (w : World o c) → R w (one id w).1)
      → (ids : List ℕ) (w : World o c) → R w (run_bulk one ids w).1
  unfolding run_bulk
  run_bulk_respects one each ids w = run_from_respects one each ids no_rows w

  -- An entry of the table of actions.
  EntryRespects : OrderAction o c → Type 0
  EntryRespects entry = (ids : List ℕ) (w : World o c) → R w (entry.run ids w).1

  module _ {mail : Option Mail} {signing : Bool} (each : Respects o c mail signing R) where
    entries : All EntryRespects (order_actions o c mail signing)
    unfolding EntryRespects order_actions accept_orders send_proposals record_acceptances
        publish_sites cancel_orders record_refunds
    entries = (
      run_bulk_respects _ each.accepts,
      (
        run_bulk_respects _ (λ id. each.advances id proposal_step),
        (
          run_bulk_respects _ (λ id. each.advances id acceptance_step),
          (
            run_bulk_respects _ each.publishes,
            (
              run_bulk_respects _ (λ id. each.advances id cancel_step),
              (run_bulk_respects _ each.refunds, tt),
            ),
          ),
        ),
      ),
    )

    dispatched :
        (found : Option (OrderAction o c))
        → ((entry : OrderAction o c) → found ≡ some entry → EntryRespects entry)
        → (ids : List ℕ) (w : World o c) → R w (dispatch found ids w).1
    unfolding EntryRespects
    dispatched none h ids w = preorder.stays w
    dispatched (some entry) h ids w = h entry refl ids w

    execute_bulk_action_respects :
        (action : Text) (ids : List ℕ) (w : World o c)
        → R w (execute_bulk_action o c mail signing action ids w).1
    unfolding execute_bulk_action
    execute_bulk_action_respects action ids w =
        dispatched (find (λ a. text_eq a.name action) (order_actions o c mail signing))
          (λ entry e. find-All EntryRespects (λ a. text_eq a.name action) _ entry entries e) ids w

    pub replay_respects :
        (history : List (Text × List ℕ)) (w : World o c) → R w (replay o c mail signing history w)
    replay_respects [] w = preorder.stays w
    replay_respects ((action, ids) ∷ later) w =
        preorder.goes_on w _ _ (execute_bulk_action_respects action ids w)
          (replay_respects later (execute_bulk_action o c mail signing action ids w).1)
