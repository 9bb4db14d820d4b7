-- ===== src/Handover/Receipt/Shows.antt =====
-- The receipt shows what it is given, one thing after another.
use hemsidor.Prelude.{
  ℕ, refl, Option, none, some, List, [], ◌∷◌, ◌++◌, map, length, ◌-◌, is_empty, if◌then◌else◌,
}
use hemsidor.Text.{Text, codes, concat}
use hemsidor.Text.Decimal.{decimal}
use hemsidor.Text.InOrder.{
  InOrder, parts_of, extend, blocks-InOrder, quiet, whole, among, pieces-InOrder, only_if,
}
use hemsidor.Handover.Asset.{asset_of, identifier_of}
use hemsidor.Handover.History.{Archive, Entry}
use hemsidor.Handover.Receipt.{
  JournalEntry, journal_block, promise_line, signed_block, note_line, pad_end, asset_label, verb,
  wrap, caveats_sv, caveat_line, render, newline, spaces,
}

-- What a journal entry has to show.
abbrev pub promised : Option Text → List Text
promised none = []
promised (some promise) = promise ∷ []

abbrev pub journal_parts : JournalEntry → List Text
journal_parts entry = entry.what ∷ entry.when ∷ codes "studiojournal" ∷ promised entry.promise

-- What a signed entry has to show.
abbrev pub signed_parts : (a : Archive) → Entry a → List Text
signed_parts a entry =
    asset_label (asset_of entry.body.item)
    ∷ verb a entry.body.event
    ∷ identifier_of entry.body.item
    ∷ a.format_timestamp (a.timestamp_ms entry.claim)
    ∷ codes "signerat av Hemsidor24"
    ∷ a.claim_id entry.claim
    ∷ (if is_empty entry.body.note then [] else entry.body.note ∷ [])

promise_line-InOrder : (promise : Option Text) → InOrder (promise_line promise) (promised promise)
unfolding promise_line concat
promise_line-InOrder none = tt
promise_line-InOrder (some promise) = (codes "       Löfte:     ", newline, refl, tt)

journal_block-InOrder : (entry : JournalEntry) → InOrder (journal_block entry) (journal_parts entry)
unfolding journal_block concat pad_end
journal_block-InOrder entry =
    pieces-InOrder
      (quiet (codes "  ")
        ∷ among [] entry.what (spaces (26 - length entry.what))
        ∷ quiet (codes " ")
        ∷ whole entry.when
        ∷ quiet newline
        ∷ among (codes "       Underlag:  ") (codes "studiojournal") newline
        ∷ [])
      _ (promised entry.promise)
      (extend (promise_line entry.promise) (newline ++ []) (promised entry.promise)
        (promise_line-InOrder entry.promise))

abbrev noted : Text → List Text
noted note = if is_empty note then [] else note ∷ []

note_line-InOrder : (note : Text) → InOrder (note_line note) (noted note)
unfolding note_line concat
note_line-InOrder [] = tt
note_line-InOrder (x ∷ note) = (codes "       Notering:  ", newline ++ [], refl, tt)

signed_block-InOrder :
    (a : Archive) (entry : Entry a) → InOrder (signed_block a entry) (signed_parts a entry)
unfolding signed_block concat pad_end
signed_block-InOrder a entry =
    pieces-InOrder
      (quiet (codes "  ")
        ∷ among [] (asset_label (asset_of entry.body.item))
            (spaces (26 - length (asset_label (asset_of entry.body.item))))
        ∷ quiet (codes " ")
        ∷ whole (verb a entry.body.event)
        ∷ quiet newline
        ∷ quiet (codes "       Avser:     ")
        ∷ whole (identifier_of entry.body.item)
        ∷ quiet newline
        ∷ quiet (codes "       Tid:       ")
        ∷ whole (a.format_timestamp (a.timestamp_ms entry.claim))
        ∷ quiet newline
        ∷ among (codes "       Underlag:  ") (codes "signerat av Hemsidor24") newline
        ∷ quiet (codes "       Verifieringskod: ")
        ∷ whole (a.claim_id entry.claim)
        ∷ quiet newline
        ∷ [])
      _ (noted entry.body.note)
      (extend (note_line entry.body.note) (newline ++ []) (noted entry.body.note)
        (note_line-InOrder entry.body.note))

caveat_line-InOrder :
    (a : Archive) (caveat : Text)
    → InOrder (caveat_line a caveat) (wrap caveat 72 (codes "    ") ∷ [])
unfolding caveat_line concat
caveat_line-InOrder a caveat = (codes "  - ", newline ++ [], refl, tt)

-- What stands under a heading, before the rest: the entries, or a sentence that there are none.
abbrev pub listed : {A : Type 0} → (A → List Text) → Text → List A → List Text → List Text
listed parts nothing xs rest =
    (if is_empty xs then nothing ∷ [] else []) ++ (parts_of parts xs ++ rest)

module _ (a : Archive) (cell_id : Text) (order_id : ℕ) where
  -- The receipt shows, each after the one before: the order's number and the issuer's key; under
  -- what happened, of each journal entry in turn what it was, when, that the source is the studio's
  -- journal, and the promise that it settled if any; under the handover, of each signed entry in
  -- turn the artefact's kind, what was done, the artefact, the time, that Hemsidor24 signed it, the
  -- claim's identifier, and the note if any; and under what it does not show, each caveat, wrapped.
  -- Where there is no entry of a kind, a sentence says so in their place.
  pub render-InOrder :
      (journal : List JournalEntry) (signed : List (Entry a))
      → InOrder (render a cell_id order_id journal signed) (
          decimal order_id
          ∷ cell_id
          ∷ codes "VAD SOM HÄNDE"
          ∷ listed journal_parts (codes "(inga journalposter)") journal (
              codes "ÖVERLÄMNING"
              ∷ listed
                  (signed_parts a)
                  (codes "Inget överlämnande är undertecknat för denna beställning.")
                  signed
                  (codes "VAD DETTA INTE VISAR"
                    ∷ parts_of (λ caveat. wrap caveat 72 (codes "    ") ∷ []) caveats_sv)))
  unfolding render concat
  render-InOrder journal signed =
      let shown_caveats = parts_of (λ caveat. wrap caveat 72 (codes "    ") ∷ []) caveats_sv in
      pieces-InOrder
        (quiet (codes "ÖVERLÄMNINGSKVITTO\n")
          ∷ quiet (codes "Hemsidor24\n\n")
          ∷ quiet (codes "Beställning:  #")
          ∷ whole (decimal order_id)
          ∷ quiet newline
          ∷ quiet (codes "Utfärdarens nyckel:  ")
          ∷ whole cell_id
          ∷ quiet newline
          ∷ quiet (
              codes
                "Koderna nedan är till för att kontrollera dokumentet. Du behöver dem\ninte för något annat.\n\n")
          ∷ among [] (codes "VAD SOM HÄNDE") (codes "\n\n")
          ∷ only_if (is_empty journal)
              (among (codes "  ") (codes "(inga journalposter)") (codes "\n\n"))
          ∷ record {
            text = concat (map journal_block journal);
            parts = parts_of journal_parts journal;
            stands = blocks-InOrder journal_block journal_parts journal journal_block-InOrder;
          }
          ∷ among [] (codes "ÖVERLÄMNING") (codes "\n\n")
          ∷ only_if (is_empty signed) (
              among (codes "  ") (codes "Inget överlämnande är undertecknat för denna beställning.")
                (codes "\n\n"))
          ∷ record {
            text = concat (map (signed_block a) signed);
            parts = parts_of (signed_parts a) signed;
            stands =
                blocks-InOrder (signed_block a) (signed_parts a) signed (signed_block-InOrder a);
          }
          ∷ quiet (codes "VAD SOM UTLOVADES\n\n")
          ∷ quiet (codes "  Domän och webbhotell i ditt namn. All kod på GitHub — du äger den.\n")
          ∷ quiet (codes "  Detta är vad som utlovades. Vad detta dokument visar står nedan.\n\n")
          ∷ among [] (codes "VAD DETTA INTE VISAR") (codes "\n\n")
          ∷ [])
        _ shown_caveats
        (extend (concat (map (caveat_line a) caveats_sv)) [] shown_caveats (
          blocks-InOrder (caveat_line a) (λ caveat. wrap caveat 72 (codes "    ") ∷ []) caveats_sv
            (caveat_line-InOrder a)))
