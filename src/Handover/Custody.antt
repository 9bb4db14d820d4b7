-- ===== src/Handover/Custody.antt =====
-- crates/hemsidor24-handover/src/studio.rs: signing, and the history of what was signed.
pub mod Laws
use hemsidor.Prelude.{
  ℕ, Bool, true, false, ◌||◌, Option, none, some, List, [], ◌∷◌, ◌++◌, Result, ok, err, map_err,
  is_empty, filter, ◌==◌, if◌then◌else◌,
}
use hemsidor.Text.{Text, text_eq}
use hemsidor.Handover.Asset.{Artefact, item_ref, customer_ref}
use hemsidor.Handover.Cell.{Cell, Handoff, Event, released, discharged}

-- `HandoverError`
pub data HandoverError : Type 0 where
  cell_error dialect_error : Text → HandoverError
  nothing_to_transfer : HandoverError

module _ (c : Cell) where
  -- The claim of one artefact: `Handoff::new(…)?.with_counterparty(…)?`
  unfoldable pub released_claim : Text → Artefact → Result HandoverError Handoff
  released_claim counterparty artefact = elim (c.new_handoff (item_ref artefact) released) [
    | err e ↦ err (dialect_error e)
    | ok h ↦ elim (c.with_counterparty counterparty h) [
      | err e ↦ err (dialect_error e)
      | ok k ↦ ok k
    ]
  ]

  abbrev pub Issuing : Type 0
  Issuing = List ℕ → c.State → Result HandoverError (List ℕ) × c.State

  -- `issued.push(self.cell.issue(body)?)`, and the rest of the loop.
  abbrev pub push_issued : Result Text ℕ → Issuing → Issuing
  push_issued (err e) rest issued s = (err (cell_error e), s)
  push_issued (ok id) rest issued s = rest (issued ++ id ∷ []) s

  abbrev pub issue_one : Result HandoverError Handoff → Issuing → Issuing
  issue_one (err e) rest issued s = (err e, s)
  issue_one (ok body) rest issued s = push_issued (c.issue body s).0 rest issued (c.issue body s).1

  -- The loop of `release_custody`: it stops at the first claim that fails.
  unfoldable pub issue_all : Text → List Artefact → Issuing
  issue_all counterparty [] issued s = (ok issued, s)
  issue_all counterparty (artefact ∷ artefacts) issued s =
      issue_one (released_claim counterparty artefact)
        (λ ids t. issue_all counterparty artefacts ids t) issued s

  -- `release_custody`
  unfoldable pub release_custody :
      ℕ → List Artefact → c.State → Result HandoverError (List ℕ) × c.State
  release_custody customer_id artefacts s =
      if is_empty artefacts
      then (err nothing_to_transfer, s)
      else issue_all (customer_ref customer_id) artefacts [] s

  -- `discharge`: one claim that closes the studio's own record for an artefact.
  unfoldable pub discharge : Artefact → ℕ → c.State → Result HandoverError ℕ × c.State
  discharge artefact released_id s = elim (c.new_handoff (item_ref artefact) discharged) [
    | err e ↦ (err (dialect_error e), s)
    | ok h ↦ (
      map_err cell_error (c.issue (c.acknowledging released_id h) s).0,
      (c.issue (c.acknowledging released_id h) s).1,
    )
  ]
