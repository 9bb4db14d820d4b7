-- ===== src/Handover/Cell.antt =====
-- The signing cell of the handover crate (feature `handover`), as the back office uses it. The cell
-- and the dialect of its claims are libraries: opening, building a claim and issuing one may fail.
use hemsidor.Prelude.{ℕ, ◌≡◌, List, [], ◌∷◌, ◌++◌, Bool, Result, ok, err, Option}
use hemsidor.Text.{Text}

pub data Event : Type 0 where
  released discharged : Event

-- The body of a claim, as far as the program reads it.
pub record Handoff : Type 0 where
  pub item : Text
  pub event : Event
  pub counterparty : Option Text
  pub acknowledges : Option ℕ
  pub note : Text

pub record Cell : Type 1 where
  pub State : Type 0
  -- The claims that the cell has signed, oldest first, with their identifiers.
  pub claims : State → List (ℕ × Handoff)
  pub max_ref_len : ℕ
  pub can_open : State → Bool
  -- `Handoff::new(item, event)`
  pub new_handoff : Text → Event → Result Text Handoff
  pub with_counterparty : Text → Handoff → Result Text Handoff
  -- `.acknowledging(released)`
  pub acknowledging : ℕ → Handoff → Handoff
  pub issue : Handoff → State → Result Text ℕ × State

-- A claim that is issued joins the log; nothing else does.
pub record IsCell (c : Cell) : Type 0 where
  pub issue_ok :
      (h : Handoff) (s : c.State) (id : ℕ)
      → (c.issue h s).0 ≡ ok id
      → c.claims (c.issue h s).1 ≡ c.claims s ++ (id, h) ∷ []
  pub issue_err :
      (h : Handoff) (s : c.State) (e : Text)
      → (c.issue h s).0 ≡ err e
      → c.claims (c.issue h s).1 ≡ c.claims s
  -- A claim that acknowledges another is about the same item, and names no more than before.
  pub acknowledging_item :
      (id : ℕ) (h : Handoff) → c.acknowledging id h ≡ record h { acknowledges = Option.some id }
  -- The fields of a built claim are those that it was built from.
  pub new_handoff_item :
      (item : Text) (event : Event) (h : Handoff)
      → c.new_handoff item event ≡ ok h
      → (h.item ≡ item) × (h.event ≡ event)
  pub with_counterparty_item :
      (name : Text) (h k : Handoff)
      → c.with_counterparty name h ≡ ok k
      → (k.item ≡ h.item) × (k.event ≡ h.event) × (k.counterparty ≡ Option.some name)
