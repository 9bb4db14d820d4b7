-- ===== src/Tests/Custody.antt =====
-- The theorems on what is signed when artefacts are handed over.
use hemsidor.Prelude.{ℕ, ◌≡◌, refl, true, none, some, List, [], ◌∷◌, ◌++◌, map, ok}
use hemsidor.Text.{codes, concat, utf8_len, utf8_width}
use hemsidor.Handover.Asset.{Asset, Artefact, prefix, item_ref, fits, customer_ref}
use hemsidor.Handover.Cell.{Handoff}
use hemsidor.Handover.Custody.{released_claim, issue_all, release_custody}
use hemsidor.Handover.Custody.Laws.{Signs, release_custody-Signs}
use hemsidor.Studio.Signing.{Artefacts, sign, planned, to_sign}
use hemsidor.Studio.Signing.Laws.{Held, PassedTo, flag, sign-flag}
use hemsidor.Tests.Memory.{notebook, notebook-IsCell}

abbrev bakery_artefacts : List Artefact
bakery_artefacts =
    record { asset = Asset.domain; identifier = codes "bageriet.se" }
    ∷ record { asset = Asset.source_code; identifier = codes "git:b" }
    ∷ []

release_ok : (release_custody notebook 1 bakery_artefacts []).0 ≡ ok (0 ∷ 1 ∷ [])
unfolding release_custody issue_all released_claim
release_ok = refl

release_custody-Signs_example :
    (added : List (ℕ × Handoff)) × ((release_custody notebook 1 bakery_artefacts []).1
      ≡ [] ++ added)
    × Signs (customer_ref 1) bakery_artefacts added
    × (0 ∷ 1 ∷ [] ≡ map (λ entry. entry.0) added)
release_custody-Signs_example =
    release_custody-Signs notebook notebook-IsCell 1 bakery_artefacts [] (0 ∷ 1 ∷ []) release_ok

abbrev on_record : Artefacts
on_record = record { domain = some (codes "bageriet.se"); hosting = none; source = none }

domain_signed : flag Asset.domain (sign notebook true 1 on_record []).0 ≡ true
unfolding sign to_sign planned fits item_ref prefix utf8_len utf8_width release_custody issue_all
    released_claim concat
domain_signed = refl

sign-flag_example : Held (PassedTo 1 Asset.domain) (sign notebook true 1 on_record []).1
sign-flag_example =
    sign-flag 1 Asset.domain notebook notebook-IsCell true on_record [] domain_signed
