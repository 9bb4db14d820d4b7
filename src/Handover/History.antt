-- ===== src/Handover/History.antt =====
-- crates/hemsidor24-handover/src/studio.rs: what the cell's log says, oldest first, and the part of it
-- that is shown for one customer. The library that stores claims is a parameter.
pub mod Laws
use hemsidor.Prelude.{
  ℕ, Bool, true, false, ◌||◌, Option, none, some, List, [], ◌∷◌, Result, ok, err, map_err, filter,
  ltb, if◌then◌else◌,
}
use hemsidor.Text.{Text, text_eq}
use hemsidor.Handover.Asset.{customer_ref}
use hemsidor.Handover.Cell.{Event, released, discharged, Handoff}
use hemsidor.Handover.Custody.{HandoverError, cell_error}

-- A signed claim of any dialect, as the storage library gives it.
pub record Archive : Type 1 where
  pub SignedClaim : Type 0
  -- `Handoff::from_claim(…).ok()`
  pub from_claim : SignedClaim → Option Handoff
  pub timestamp_ms : SignedClaim → ℕ
  -- The claim's identifier, its moment and an event, as they are printed.
  pub claim_id : SignedClaim → Text
  pub format_timestamp : ℕ → Text
  pub event_text : Event → Text

-- `Entry`
pub record Entry (a : Archive) : Type 0 where
  pub seq : ℕ
  pub claim : a.SignedClaim
  pub body : Handoff

module _ (a : Archive) where
  -- The claims that can be read as handoffs.
  abbrev pub decoded : Option Handoff → ℕ → a.SignedClaim → List (Entry a) → List (Entry a)
  decoded none seq claim rest = rest
  decoded (some body) seq claim rest = record { seq = seq; claim = claim; body = body } ∷ rest

  unfoldable pub decode_all : List (ℕ × a.SignedClaim) → List (Entry a)
  decode_all [] = []
  decode_all ((seq, claim) ∷ rest) = decoded (a.from_claim claim) seq claim (decode_all rest)

  -- `sort_by_key(|(seq, …)| *seq)`, which is stable: an entry stays before those of the same key.
  unfoldable pub insert_entry : Entry a → List (Entry a) → List (Entry a)
  insert_entry x [] = x ∷ []
  insert_entry x (y ∷ ys) =
      let rest = insert_entry x ys in if ltb y.seq x.seq then y ∷ rest else x ∷ y ∷ ys

  unfoldable pub sort_by_seq : List (Entry a) → List (Entry a)
  unfolding insert_entry
  sort_by_seq [] = []
  sort_by_seq (x ∷ xs) = insert_entry x (sort_by_seq xs)

  -- `history`, of what `cell.claims(…)` answered.
  unfoldable pub history :
      Result Text (List (ℕ × a.SignedClaim)) → Result HandoverError (List (Entry a))
  history (err e) = err (cell_error e)
  history (ok claims) = ok (sort_by_seq (decode_all claims))

-- `body.counterparty.as_deref() == Some(wanted)`
abbrev pub names_party : Text → Option Text → Bool
names_party wanted none = false
names_party wanted (some name) = text_eq name wanted

abbrev pub is_discharged : Event → Bool
is_discharged released = false
is_discharged discharged = true

abbrev pub concerns : {a : Archive} → ℕ → Entry a → Bool
concerns customer_id entry =
    names_party (customer_ref customer_id) entry.body.counterparty || is_discharged entry.body.event

module _ (a : Archive) where
  abbrev pub kept_for :
      ℕ → Result HandoverError (List (Entry a)) → Result HandoverError (List (Entry a))
  kept_for customer_id (err e) = err e
  kept_for customer_id (ok entries) = ok (filter (concerns customer_id) entries)

  -- `history_for_customer`
  unfoldable pub history_for_customer :
      ℕ → Result Text (List (ℕ × a.SignedClaim)) → Result HandoverError (List (Entry a))
  history_for_customer customer_id claims = kept_for customer_id (history a claims)
