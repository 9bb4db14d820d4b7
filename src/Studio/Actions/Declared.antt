-- ===== src/Studio/Actions/Declared.antt =====
-- Declaring the actions and running them.
use hemsidor.Prelude.{ℕ, Bool, false, ◌≡◌, refl, Option, List, any, All, find_of_none}
use hemsidor.Text.{Text, text_eq}
use hemsidor.Studio.Backend.{Orm}
use hemsidor.Handover.Cell.{Cell}
use hemsidor.Studio.Monad.{World, Mail}
use hemsidor.Studio.Actions.{
  OrderAction, no_rows, order_actions, execute_bulk_action, declared, bulk_actions,
}

module _ (o : Orm) (c : Cell) (mail : Option Mail) (signing : Bool) where
  -- The button of an entry runs that entry, on whatever rows.
  abbrev ButtonRuns : OrderAction o c → Type 0
  ButtonRuns entry =
      (ids : List ℕ) (w : World o c)
      → execute_bulk_action o c mail signing (declared o c mail signing entry).name ids w
        ≡ entry.run ids w

  -- The name of each of the six buttons runs the entry that declares it, so that none falls through
  -- to the default that does nothing, and no two share a name.
  execute_bulk_action-ButtonRuns : All ButtonRuns (order_actions o c mail signing)
  unfolding order_actions declared execute_bulk_action text_eq
  execute_bulk_action-ButtonRuns = (
    λ ids w. refl,
    (λ ids w. refl, (λ ids w. refl, (λ ids w. refl, (λ ids w. refl, (λ ids w. refl, tt))))),
  )

  -- An action that no button declares leaves every row alone.
  execute_bulk_action-undeclared :
      (action : Text) (ids : List ℕ) (w : World o c)
      → any (λ button. text_eq button.name action) (bulk_actions o c mail signing) ≡ false
      → execute_bulk_action o c mail signing action ids w ≡ (no_rows, w)
  unfolding bulk_actions order_actions declared execute_bulk_action
  execute_bulk_action-undeclared action ids w h =
      rw (find_of_none (λ a. text_eq a.name action) (order_actions o c mail signing) h) refl
