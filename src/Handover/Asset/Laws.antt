-- ===== src/Handover/Asset/Laws.antt =====
-- An item reference reads back: the asset by its prefix, and the identifier as it was given.
use hemsidor.Prelude.{◌≡◌, some, arith}
use hemsidor.Text.{Text, concat}
use hemsidor.Text.Match.{starts_with}
use mathlib.Core.List.{append-nil}
use hemsidor.Handover.Asset.{
  Asset, domain, hosting, source_code, Artefact, prefix, item_ref, asset_of, identifier_of,
}

asset_of-prefix :
    (a : Asset) (t : Text) → asset_of (item_ref (record { asset = a; identifier = t })) ≡ some a
unfolding asset_of item_ref prefix concat starts_with
asset_of-prefix domain t = ground arith
asset_of-prefix hosting t = ground arith
asset_of-prefix source_code t = ground arith

identifier_of-prefix :
    (a : Asset) (t : Text) → identifier_of (item_ref (record { asset = a; identifier = t })) ≡ t
unfolding identifier_of item_ref prefix concat
identifier_of-prefix domain t = append-nil t
identifier_of-prefix hosting t = append-nil t
identifier_of-prefix source_code t = append-nil t

-- Whatever the identifier, colons included, a reference reads back as the artefact that it names.
pub item_ref_reads_back :
    (a : Artefact)
    → (asset_of (item_ref a) ≡ some a.asset) × (identifier_of (item_ref a) ≡ a.identifier)
item_ref_reads_back a =
    (asset_of-prefix a.asset a.identifier, identifier_of-prefix a.asset a.identifier)
