-- ===== src/Studio/Signing.antt =====
-- crates/hemsidor24-admin/src/signing.rs: one claim for each artefact that passes to the customer.
-- `signing` says that the feature is compiled in and a cell is configured; without it nothing is
-- signed. Log lines are left out.
pub mod Laws
use hemsidor.Prelude.{
  ℕ, Bool, true, false, ◌&&◌, Option, none, some, List, [], ◌∷◌, ◌++◌, ok, err, Result, is_empty,
  any, filter, is_none, if◌then◌else◌,
}
use hemsidor.Text.{Text}
use hemsidor.Handover.Asset.{Asset, Artefact, asset_eq, fits}
use hemsidor.Handover.Cell.{Cell}
use hemsidor.Handover.Custody.{HandoverError, release_custody}

pub record Artefacts : Type 0 where
  pub domain : Option Text
  pub hosting : Option Text
  pub source : Option Text

pub record Signed : Type 0 where
  pub domain : Bool
  pub hosting : Bool
  pub source : Bool

-- `Signed::default()`
abbrev pub unsigned : Signed
unsigned = record { domain = false; hosting = false; source = false }

-- `Artefacts::is_empty`
unfoldable pub nothing_named : Artefacts → Bool
nothing_named self = is_none self.domain && is_none self.hosting && is_none self.source

abbrev pub plan : Asset → Option Text → List Artefact
plan asset none = []
plan asset (some name) = record { asset = asset; identifier = name } ∷ []

unfoldable pub planned : Artefacts → List Artefact
planned artefacts =
    plan Asset.domain artefacts.domain
    ++ (plan Asset.hosting artefacts.hosting ++ plan Asset.source_code artefacts.source)

-- `named(asset)`
abbrev pub named : Asset → List Artefact → Bool
named asset to_sign = any (λ a. asset_eq a.asset asset) to_sign

module _ (c : Cell) (signing : Bool) where
  -- What `release_custody` answered, as flags.
  abbrev pub flags : List Artefact → Result HandoverError (List ℕ) → Signed
  flags to_sign (err e) = unsigned
  flags to_sign (ok claims) = record {
    domain = named Asset.domain to_sign;
    hosting = named Asset.hosting to_sign;
    source = named Asset.source_code to_sign;
  }

  -- The claims that are asked for: the planned ones that fit the dialect's bound.
  unfoldable pub to_sign : Artefacts → List Artefact
  to_sign artefacts = filter (fits c.max_ref_len) (planned artefacts)

  -- `sign`
  unfoldable pub sign : ℕ → Artefacts → c.State → Signed × c.State
  sign customer_id artefacts s =
      if signing && c.can_open s
      then if is_empty (planned artefacts) then (unsigned, s) else (
        flags (to_sign artefacts) (release_custody c customer_id (to_sign artefacts) s).0,
        (release_custody c customer_id (to_sign artefacts) s).1,
      )
      else (unsigned, s)
