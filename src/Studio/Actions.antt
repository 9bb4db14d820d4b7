-- ===== src/Studio/Actions.antt =====
-- The bulk actions: proposal.rs, acceptance.rs, the cancel and refund actions of cancellation.rs, and
-- the table in models.rs from which they are declared and dispatched.
pub mod Declared
pub mod Closure
use hemsidor.Prelude.{
  ℕ, ◌+◌, Bool, true, false, Option, none, some, List, [], ◌∷◌, ◌++◌, ok, err, Result, find, map,
}
use hemsidor.Text.{Text, codes, text_eq}
use hemsidor.Core.Status.{utkast_skickat, godkand, avbruten}
use hemsidor.Notify.Message.{proposal_ready, proposal_accepted, order_cancelled}
use hemsidor.Studio.Tables.{offered_at, accepted_at}
use hemsidor.Studio.Backend.{Orm}
use hemsidor.Handover.Cell.{Cell}
use hemsidor.Studio.Monad.{World, Action, Mail, Refusal}
use hemsidor.Studio.Workflow.{Step, advance}
use hemsidor.Studio.Accept.{accept_one}
use hemsidor.Studio.Publication.{publish_one}
use hemsidor.Studio.Cancellation.{refund_one}

-- `proposal::step`
unfoldable pub proposal_step : Step
proposal_step = record { to = utkast_skickat; stamp = some offered_at; message = proposal_ready }

-- `acceptance::step`
unfoldable pub acceptance_step : Step
acceptance_step = record { to = godkand; stamp = some accepted_at; message = proposal_accepted }

-- `cancel_step`
unfoldable pub cancel_step : Step
cancel_step = record {
  to = avbruten;
  stamp = none;
  message = λ company chosen to from studio. order_cancelled company to from studio;
}

pub record BulkActionResult : Type 0 where
  pub succeeded : ℕ
  pub failed : List (ℕ × Refusal)

-- `BulkActionResult::default()`
abbrev pub no_rows : BulkActionResult
no_rows = record { succeeded = 0; failed = [] }

-- One round of the loop: `result.succeeded += 1` or `result.failed.push((id, reason))`.
unfoldable pub tally : ℕ → Result Refusal (Unit {0}) → BulkActionResult → BulkActionResult
tally id (ok _) result = record result { succeeded = result.succeeded + 1 }
tally id (err reason) result = record result { failed = result.failed ++ (id, reason) ∷ [] }

module _ {o : Orm} {c : Cell} where
  -- The loop that each bulk action runs over the selected orders.
  unfoldable pub run_from :
      (ℕ → Action o c (Unit {0}))
      → List ℕ
      → BulkActionResult
      → World o c
      → BulkActionResult × World o c
  run_from one [] result w = (result, w)
  run_from one (id ∷ ids) result w = run_from one ids (tally id (one id w).0 result) (one id w).1

  unfoldable pub run_bulk :
      (ℕ → Action o c (Unit {0})) → List ℕ → World o c → BulkActionResult × World o c
  run_bulk one ids w = run_from one ids no_rows w

-- `OrderAction`
pub record OrderAction (o : Orm) (c : Cell) : Type 0 where
  pub name : Text
  pub label : Text
  pub destructive : Bool
  pub run : List ℕ → World o c → BulkActionResult × World o c

-- `BulkAction`, less its permission, which no action has.
pub record BulkAction : Type 0 where
  pub name : Text
  pub label : Text
  pub destructive : Bool
  pub confirm : Bool

-- `match … { Some(entry) => (entry.run)(ctx).await, None => Ok(BulkActionResult::default()) }`
abbrev pub dispatch :
    {o : Orm} {c : Cell}
    → Option (OrderAction o c)
    → List ℕ
    → World o c
    → BulkActionResult × World o c
dispatch none ids w = (no_rows, w)
dispatch (some entry) ids w = entry.run ids w

module _ (o : Orm) (c : Cell) (mail : Option Mail) (signing : Bool) where
  unfoldable pub accept_orders : List ℕ → World o c → BulkActionResult × World o c
  accept_orders = run_bulk (accept_one o c)

  unfoldable pub send_proposals : List ℕ → World o c → BulkActionResult × World o c
  send_proposals = run_bulk (λ id. advance o c mail id proposal_step)

  unfoldable pub record_acceptances : List ℕ → World o c → BulkActionResult × World o c
  record_acceptances = run_bulk (λ id. advance o c mail id acceptance_step)

  unfoldable pub publish_sites : List ℕ → World o c → BulkActionResult × World o c
  publish_sites = run_bulk (publish_one o c mail signing)

  unfoldable pub cancel_orders : List ℕ → World o c → BulkActionResult × World o c
  cancel_orders = run_bulk (λ id. advance o c mail id cancel_step)

  unfoldable pub record_refunds : List ℕ → World o c → BulkActionResult × World o c
  record_refunds = run_bulk (refund_one o c mail)

  -- `ORDER_ACTIONS`
  unfoldable pub order_actions : List (OrderAction o c)
  order_actions =
      record {
        name = codes "accept_order";
        label = codes "Skapa kund och uppdrag";
        destructive = false;
        run = accept_orders;
      }
      ∷ record {
        name = codes "send_proposal";
        label = codes "Skicka utkast till kund";
        destructive = false;
        run = send_proposals;
      }
      ∷ record {
        name = codes "record_acceptance";
        label = codes "Registrera godkännande";
        destructive = false;
        run = record_acceptances;
      }
      ∷ record {
        name = codes "publish_site";
        label = codes "Publicera och lämna över";
        destructive = false;
        run = publish_sites;
      }
      ∷ record {
        name = codes "cancel_order";
        label = codes "Avbryt beställning";
        destructive = true;
        run = cancel_orders;
      }
      ∷ record {
        name = codes "record_refund";
        label = codes "Registrera återbetalning";
        destructive = true;
        run = record_refunds;
      }
      ∷ []

  -- `execute_bulk_action`
  unfoldable pub execute_bulk_action : Text → List ℕ → World o c → BulkActionResult × World o c
  execute_bulk_action action ids w =
      dispatch (find (λ a. text_eq a.name action) order_actions) ids w

  unfoldable pub declared : OrderAction o c → BulkAction
  declared a = record {
    name = a.name;
    label = a.label;
    destructive = a.destructive;
    confirm = true;
  }

  -- `bulk_actions`
  unfoldable pub bulk_actions : List BulkAction
  bulk_actions = map declared order_actions

  -- A history: the actions that operators choose, each with the orders selected for it.
  abbrev pub replay : List (Text × List ℕ) → World o c → World o c
  replay [] w = w
  replay ((action, ids) ∷ later) w = replay later (execute_bulk_action action ids w).1
