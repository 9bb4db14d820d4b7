-- ===== src/Handover/Asset.antt =====
-- crates/hemsidor24-handover/src/asset.rs, and the reading back of references in studio.rs.
pub mod Laws
use hemsidor.Prelude.{
  ℕ, ◌+◌, Bool, true, false, Option, none, some, List, [], ◌∷◌, ◌++◌, leb, ltb, find, ◌==◌,
  if◌then◌else◌,
}
use hemsidor.Text.{Text, codes, concat, utf8_len}
use hemsidor.Text.Decimal.{decimal}
use hemsidor.Text.Match.{starts_with}

pub data Asset : Type 0 where
  domain hosting source_code : Asset

abbrev pub all_assets : List Asset
all_assets = domain ∷ hosting ∷ source_code ∷ []

unfoldable pub label_sv : Asset → Text
label_sv domain = codes "Domän"
label_sv hosting = codes "Webbhotell"
label_sv source_code = codes "Källkod"

unfoldable pub prefix : Asset → Text
prefix domain = codes "dom"
prefix hosting = codes "host"
prefix source_code = codes "src"

-- The derived `PartialEq`: the same variant.
abbrev pub variant : Asset → ℕ
variant domain = 0
variant hosting = 1
variant source_code = 2

abbrev pub asset_eq : Asset → Asset → Bool
asset_eq a b = variant a == variant b

pub record Artefact : Type 0 where
  pub asset : Asset
  pub identifier : Text

unfoldable pub item_ref : Artefact → Text
item_ref self = concat (prefix self.asset ∷ codes ":" ∷ self.identifier ∷ [])

-- `fits`, against the dialect's bound on the bytes of a reference.
unfoldable pub fits : ℕ → Artefact → Bool
fits max_ref_len self = leb (utf8_len (item_ref self)) max_ref_len

unfoldable pub customer_ref : ℕ → Text
customer_ref customer_id = concat (codes "cus-" ∷ decimal customer_id ∷ [])

unfoldable pub order_ref : ℕ → Text
order_ref order_id = concat (codes "ord-" ∷ decimal order_id ∷ [])

-- `asset_of`
unfoldable pub asset_of : Text → Option Asset
asset_of item = find (λ a. starts_with item (concat (prefix a ∷ codes ":" ∷ []))) all_assets

-- What follows the first colon.
after_colon : Text → Option Text
after_colon [] = none
after_colon (c ∷ s) = let rest = after_colon s in if c == b':' then some s else rest

-- `identifier_of`
unfoldable pub identifier_of : Text → Text
unfolding after_colon
identifier_of item = elim (after_colon item) [ none ↦ item | some rest ↦ rest ]
