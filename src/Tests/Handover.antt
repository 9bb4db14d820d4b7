-- ===== src/Tests/Handover.antt =====
-- The theorems on the history of a cell with a few claims, and on a receipt.
use hemsidor.Prelude.{
  ℕ, ◌≡◌, refl, filter, ◌==◌, Option, none, some, List, [], ◌∷◌, map, ok, arith, All, is_some, ◌&&◌,
}
use hemsidor.Text.{Text, codes, is_whitespace, text_eq, concat}
use hemsidor.Text.Trim.{IsBlank}
use hemsidor.Text.Split.{join}
use hemsidor.Text.Decimal.{decimal}
use hemsidor.Text.Words.{split_whitespace}
use hemsidor.Handover.Asset.{customer_ref}
use hemsidor.Handover.Cell.{Event, Handoff, released, discharged}
use hemsidor.Handover.History.{
  Archive, Entry, decode_all, insert_entry, sort_by_seq, history, history_for_customer,
  is_discharged,
}
use hemsidor.Handover.History.Laws.{
  IsOrdered, history_lem, history_for_customer-releases, released_to,
  history_for_customer-discharged,
}
use hemsidor.Handover.Receipt.{JournalEntry, new, settling, render, wrap, caveats_sv}
use hemsidor.Handover.Receipt.Wrap.{Fits, wrap-words, wrap-lines}
use hemsidor.Text.InOrder.{InOrder, parts_of}
use hemsidor.Handover.Receipt.Shows.{listed, journal_parts, signed_parts, render-InOrder}

abbrev printed : Event → Text
printed released = codes "released"
printed discharged = codes "discharged"

-- A claim is a handoff, or a claim of another dialect.
abbrev shelf : Archive
shelf = record {
  SignedClaim = Option Handoff;
  from_claim = λ claim. claim;
  timestamp_ms = λ claim. 0;
  claim_id = λ claim. codes "claim:1";
  format_timestamp = λ t. codes "2026-09-04";
  event_text = printed;
}

abbrev to_first : Handoff
to_first = record {
  item = codes "dom:bageriet.se";
  event = released;
  counterparty = some (codes "cus-1");
  acknowledges = none;
  note = codes "klar";
}

abbrev to_second : Handoff
to_second = record to_first { counterparty = some (codes "cus-2") }

abbrev closing : Handoff
closing = record to_first { event = discharged; counterparty = none }

abbrev claims : List (ℕ × Option Handoff)
claims = (2, some to_second) ∷ (0, some to_first) ∷ (3, none) ∷ (1, some closing) ∷ []

abbrev entry_of : ℕ → Handoff → Entry shelf
entry_of n body = record { seq = n; claim = some body; body = body }

abbrev log : List (Entry shelf)
log = entry_of 0 to_first ∷ entry_of 1 closing ∷ entry_of 2 to_second ∷ []

history_log : history shelf (ok claims) ≡ ok log
unfolding history sort_by_seq insert_entry decode_all
history_log = refl

first_kept :
    history_for_customer shelf 1 (ok claims) ≡ ok (entry_of 0 to_first ∷ entry_of 1 closing ∷ [])
unfolding history_for_customer history sort_by_seq insert_entry decode_all customer_ref text_eq
    concat decimal
first_kept = refl

history_lem_example :
    IsOrdered shelf log
    × All (λ e. e.claim ≡ some e.body) log
    × ((k : ℕ)
        → map (λ e. (e.seq, e.claim)) (filter (λ e. e.seq == k) log)
          ≡ filter (λ c. (c.0 == k) && is_some c.1) claims)
history_lem_example = history_lem shelf claims log history_log

history_for_customer-releases_example :
    (filter (released_to 1) (entry_of 0 to_first ∷ entry_of 1 closing ∷ [])
      ≡ filter (released_to 1) log)
    × (filter (released_to 2) (entry_of 0 to_first ∷ entry_of 1 closing ∷ []) ≡ [])
history_for_customer-releases_example =
    history_for_customer-releases shelf 1 2 (ok claims) log
      (entry_of 0 to_first ∷ entry_of 1 closing ∷ []) history_log first_kept (omega arith)

history_for_customer-discharged_example :
    filter (λ e. is_discharged e.body.event) (entry_of 0 to_first ∷ entry_of 1 closing ∷ [])
    ≡ filter (λ e. is_discharged e.body.event) log
history_for_customer-discharged_example =
    history_for_customer-discharged shelf 1 (ok claims) log
      (entry_of 0 to_first ∷ entry_of 1 closing ∷ []) history_log first_kept

abbrev sentence : Text
sentence = codes "Kunden har  inte undertecknat något här."

IsBlank-indent : IsBlank (codes "    ")
unfolding is_whitespace
IsBlank-indent = refl

wrap-words_example : split_whitespace (wrap sentence 16 (codes "    ")) ≡ split_whitespace sentence
wrap-words_example = wrap-words 16 (codes "    ") sentence IsBlank-indent

wrap-lines_example :
    (ls : List Text) × (wrap sentence 16 (codes "    ") ≡ join (b'\n' ∷ codes "    ") ls)
    × All (Fits 16 (codes "    ")) ls
wrap-lines_example = wrap-lines 16 (codes "    ") sentence

abbrev journal : List JournalEntry
journal =
    settling (new (codes "2026-09-04") (codes "Förslag visat"))
      (codes "Du ser förslaget innan sidan publiceras.")
    ∷ new (codes "2026-09-05") (codes "Förslag godkänt")
    ∷ []

render-InOrder_example : InOrder (render shelf (codes "cell-abc") 42 journal log) (
    decimal 42
    ∷ codes "cell-abc"
    ∷ codes "VAD SOM HÄNDE"
    ∷ listed journal_parts (codes "(inga journalposter)") journal (
        codes "ÖVERLÄMNING"
        ∷ listed
            (signed_parts shelf)
            (codes "Inget överlämnande är undertecknat för denna beställning.")
            log
            (codes "VAD DETTA INTE VISAR"
              ∷ parts_of (λ caveat. wrap caveat 72 (codes "    ") ∷ []) caveats_sv)))
render-InOrder_example = render-InOrder shelf (codes "cell-abc") 42 journal log
