-- ===== src/Handover/Receipt.antt =====
-- crates/hemsidor24-handover/src/receipt.rs: the receipt that a customer is given.
pub mod Wrap
pub mod Shows
use hemsidor.Prelude.{
  ℕ, ◌+◌, ◌-◌, Bool, not, ◌&&◌, Option, none, some, List, [], ◌∷◌, ◌++◌, map, is_empty, length, ltb,
  if◌then◌else◌,
}
use hemsidor.Text.{Text, codes, concat, text_eq}
use hemsidor.Text.Decimal.{decimal}
use hemsidor.Text.Words.{split_whitespace}
use hemsidor.Handover.Asset
use hemsidor.Handover.Asset.{Asset, asset_of, identifier_of}
use hemsidor.Handover.Cell.{Event}
use hemsidor.Handover.History.{Archive, Entry}

pub record JournalEntry : Type 0 where
  pub when : Text
  pub what : Text
  pub promise : Option Text

-- `JournalEntry::new`
unfoldable pub new : Text → Text → JournalEntry
new when what = record { when = when; what = what; promise = none }

unfoldable pub settling : JournalEntry → Text → JournalEntry
settling self promise = record self { promise = some promise }

-- The loop of `wrap`: what has been written, and the line that is being filled.
abbrev pub fill : ℕ → Text → Text × Text → Text → Text × Text
fill width indent (out, line) word =
    if not (is_empty line) && ltb width (length line + 1 + length word)
    then (out ++ (line ++ ((b'\n' ∷ []) ++ indent)), word)
    else (out, (if is_empty line then [] else line ++ b' ' ∷ []) ++ word)

abbrev pub fill_all : ℕ → Text → Text × Text → List Text → Text × Text
fill_all width indent state [] = state
fill_all width indent state (word ∷ words) =
    fill_all width indent (fill width indent state word) words

-- `wrap`
unfoldable pub wrap : Text → ℕ → Text → Text
wrap text width indent =
    let (out, line) = fill_all width indent ([], []) (split_whitespace text) in out ++ line

-- `{:<26}`
abbrev pub spaces : ℕ → Text
spaces Prim.Native.Nat.zero = []
spaces (Prim.Native.Nat.suc n) = b' ' ∷ spaces n

unfoldable pub pad_end : ℕ → Text → Text
pad_end width t = t ++ spaces (width - length t)

-- `CAVEATS_SV`
unfoldable pub caveats_sv : List Text
caveats_sv =
    codes
      "Rader märkta \"signerat\" är undertecknade av Hemsidor24 och kan inte ändras i efterhand utan att det syns. De visar att Hemsidor24 uppgett detta, inte att uppgiften är sann."
    ∷ codes
        "En signerad rad betyder att Hemsidor24 lämnat ifrån sig kontrollen över artefakten. Den visar inte att kunden tagit emot den, och inte att äganderätt eller upphovsrätt har övergått."
    ∷ codes
        "Uppgifter hos domänregistrator, webbhotell eller GitHub kan visa vem som kontrollerar ett konto eller en domän. Vad som gäller rättsligt kan följa av avtal och avgörs inte av detta dokument."
    ∷ codes
        "Rader märkta \"studiojournal\" kommer från Hemsidor24:s egen databas. De är daterade och spårbara, men de är inte undertecknade."
    ∷ codes
        "Kunden har inte undertecknat något här. Varje post är Hemsidor24:s egen uppgift, inte ett ömsesidigt utbyte."
    ∷ codes "Tidpunkterna är angivna av Hemsidor24 själv och styrks inte av någon utomstående."
    ∷ codes
        "Att nyckeln ovan tillhör Hemsidor24 är en bedömning läsaren gör; det framgår inte av dokumentet i sig."
    ∷ []

abbrev pub newline : Text
newline = b'\n' ∷ []

unfoldable pub promise_line : Option Text → Text
promise_line none = []
promise_line (some promise) = concat (codes "       Löfte:     " ∷ promise ∷ newline ∷ [])

-- What one journal entry prints.
unfoldable pub journal_block : JournalEntry → Text
journal_block entry = concat (
    codes "  "
    ∷ pad_end 26 entry.what
    ∷ codes " "
    ∷ entry.when
    ∷ newline
    ∷ codes "       Underlag:  studiojournal\n"
    ∷ promise_line entry.promise
    ∷ newline
    ∷ [])

unfoldable pub note_line : Text → Text
note_line note =
    if is_empty note then [] else concat (codes "       Notering:  " ∷ note ∷ newline ∷ [])

abbrev pub asset_label : Option Asset → Text
asset_label none = codes "Överlämnat"
asset_label (some asset) = Asset.label_sv asset

module _ (a : Archive) where
  unfoldable pub verb : Event → Text
  verb event =
      if text_eq (a.event_text event) (codes "discharged")
      then codes "Studion avslutade sin journal"
      else codes "Studion lämnade ifrån sig kontrollen"

  -- What one signed entry prints.
  unfoldable pub signed_block : Entry a → Text
  signed_block entry = concat (
      codes "  "
      ∷ pad_end 26 (asset_label (asset_of entry.body.item))
      ∷ codes " "
      ∷ verb entry.body.event
      ∷ newline
      ∷ codes "       Avser:     "
      ∷ identifier_of entry.body.item
      ∷ newline
      ∷ codes "       Tid:       "
      ∷ a.format_timestamp (a.timestamp_ms entry.claim)
      ∷ newline
      ∷ codes "       Underlag:  signerat av Hemsidor24\n"
      ∷ codes "       Verifieringskod: "
      ∷ a.claim_id entry.claim
      ∷ newline
      ∷ note_line entry.body.note
      ∷ newline
      ∷ [])

  unfoldable pub caveat_line : Text → Text
  caveat_line caveat = concat (codes "  - " ∷ wrap caveat 72 (codes "    ") ∷ newline ∷ [])

  -- `render`
  unfoldable pub render : Text → ℕ → List JournalEntry → List (Entry a) → Text
  render cell_id order_id journal signed = concat (
      codes "ÖVERLÄMNINGSKVITTO\n"
      ∷ codes "Hemsidor24\n\n"
      ∷ codes "Beställning:  #"
      ∷ decimal order_id
      ∷ newline
      ∷ codes "Utfärdarens nyckel:  "
      ∷ cell_id
      ∷ newline
      ∷ codes
          "Koderna nedan är till för att kontrollera dokumentet. Du behöver dem\ninte för något annat.\n\n"
      ∷ codes "VAD SOM HÄNDE\n\n"
      ∷ (if is_empty journal then codes "  (inga journalposter)\n\n" else [])
      ∷ concat (map journal_block journal)
      ∷ codes "ÖVERLÄMNING\n\n"
      ∷ (if is_empty signed
          then codes "  Inget överlämnande är undertecknat för denna beställning.\n\n"
          else [])
      ∷ concat (map signed_block signed)
      ∷ codes "VAD SOM UTLOVADES\n\n"
      ∷ codes "  Domän och webbhotell i ditt namn. All kod på GitHub — du äger den.\n"
      ∷ codes "  Detta är vad som utlovades. Vad detta dokument visar står nedan.\n\n"
      ∷ codes "VAD DETTA INTE VISAR\n\n"
      ∷ concat (map caveat_line caveats_sv)
      ∷ [])
