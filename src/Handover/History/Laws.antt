-- ===== src/Handover/History/Laws.antt =====
-- The order of the history, and what of it is shown for one customer.
use hemsidor.Prelude.{
  ℕ, ◌≤◌, Bool, true, false, ◌&&◌, ◌≡◌, ◌≢◌, refl, sym, ap, ◌∙◌, Option, none, some, List, [], ◌∷◌,
  Result, ok, filter, ltb, ◌==◌, arith, Bool-cases, inl, inr, map, is_some, All, Option-cases,
}
use mathlib.Core.Path.{subst}
use mathlib.Core.List.{append-nil}
use hemsidor.Text.{Text, text_eq, text_eq_iff, concat}
use hemsidor.Text.Decimal.{decimal}
use hemsidor.Text.Decimal.RoundTrip.{decimal_injective}
use hemsidor.Handover.Asset.{customer_ref}
use hemsidor.Handover.Cell.{Event, released, discharged}
use hemsidor.Handover.History.{
  Archive, Entry, decode_all, insert_entry, sort_by_seq, history, names_party, is_discharged,
  concerns, kept_for, history_for_customer,
}

module _ (a : Archive) where
  -- Each entry's number is at most the next one's.
  abbrev pub IsOrdered : List (Entry a) → Type 0
  IsOrdered [] = Unit
  IsOrdered (x ∷ []) = Unit
  IsOrdered (x ∷ y ∷ rest) = (x.seq ≤ y.seq) × IsOrdered (y ∷ rest)

  insert_entry-IsOrdered :
      (x : Entry a) (ys : List (Entry a)) → IsOrdered ys → IsOrdered (insert_entry a x ys)
  unfolding insert_entry
  insert_entry-IsOrdered x [] h = tt
  insert_entry-IsOrdered x (y ∷ []) h = ground arith
  insert_entry-IsOrdered x (y ∷ z ∷ rest) h =
      ground (arith, insert_entry-IsOrdered x (z ∷ rest) h.1)

  sort-IsOrdered : (xs : List (Entry a)) → IsOrdered (sort_by_seq a xs)
  unfolding sort_by_seq
  sort-IsOrdered [] = tt
  sort-IsOrdered (x ∷ xs) = insert_entry-IsOrdered x (sort_by_seq a xs) (sort-IsOrdered xs)

  -- Entries of one number keep their order.
  insert_entry-filter :
      (k : ℕ) (x : Entry a) (ys : List (Entry a))
      → filter (λ e. e.seq == k) (insert_entry a x ys) ≡ filter (λ e. e.seq == k) (x ∷ ys)
  unfolding insert_entry
  insert_entry-filter k x [] = refl
  insert_entry-filter k x (y ∷ ys) = ground (arith, insert_entry-filter k x ys)

  sort-filter :
      (k : ℕ) (xs : List (Entry a))
      → filter (λ e. e.seq == k) (sort_by_seq a xs) ≡ filter (λ e. e.seq == k) xs
  unfolding sort_by_seq
  sort-filter k [] = refl
  sort-filter k (x ∷ xs) =
      ground (arith, insert_entry-filter k x (sort_by_seq a xs), sort-filter k xs)

  -- The claims of a number that can be read are decoded in the order of the log.
  decode_all-filter :
      (k : ℕ) (claims : List (ℕ × a.SignedClaim))
      → map (λ e. (e.seq, e.claim)) (filter (λ e. e.seq == k) (decode_all a claims))
        ≡ filter (λ c. (c.0 == k) && is_some (a.from_claim c.1)) claims
  unfolding decode_all
  decode_all-filter k [] = refl
  decode_all-filter k ((seq, claim) ∷ rest) = elim (Option-cases (a.from_claim claim)) [
    | inl none_read ↦ rw none_read (ground (arith, decode_all-filter k rest))
    | inr (body, e) ↦ rw e (ground (arith, decode_all-filter k rest))
  ]

  -- An entry's body is what its claim reads as.
  abbrev pub IsRead : Entry a → Type 0
  IsRead e = a.from_claim e.claim ≡ some e.body

  decode_all-IsRead : (claims : List (ℕ × a.SignedClaim)) → All IsRead (decode_all a claims)
  unfolding decode_all
  decode_all-IsRead [] = tt
  decode_all-IsRead ((seq, claim) ∷ rest) = elim (Option-cases (a.from_claim claim)) [
    | inl none_read ↦ rw none_read (decode_all-IsRead rest)
    | inr (body, e) ↦ rw e (e, decode_all-IsRead rest)
  ]

  insert_entry-All :
      (x : Entry a) (ys : List (Entry a))
      → IsRead x
      → All IsRead ys
      → All IsRead (insert_entry a x ys)
  unfolding insert_entry
  insert_entry-All x [] h hs = (h, tt)
  insert_entry-All x (y ∷ ys) h (h', hs) = elim (Bool-cases (ltb y.seq x.seq)) [
    | inl after ↦ rw (after, insert_entry) (h', insert_entry-All x ys h hs)
    | inr before ↦ rw (before, insert_entry) (h, (h', hs))
  ]

  sort-All : (xs : List (Entry a)) → All IsRead xs → All IsRead (sort_by_seq a xs)
  unfolding sort_by_seq
  sort-All [] hs = tt
  sort-All (x ∷ xs) (h, hs) = insert_entry-All x (sort_by_seq a xs) h (sort-All xs hs)

  -- Where the log can be read, the history is ordered by the claims' numbers; each entry's body is
  -- what its claim reads as; and the claims of each number in it are those of that number in the log
  -- that can be read as handoffs, all of them, as often and in the order in which they stand there.
  pub history_lem :
      (claims : List (ℕ × a.SignedClaim)) (entries : List (Entry a))
      → history a (ok claims) ≡ ok entries
      → IsOrdered entries
        × All (λ e. a.from_claim e.claim ≡ some e.body) entries
        × ((k : ℕ)
            → map (λ e. (e.seq, e.claim)) (filter (λ e. e.seq == k) entries)
              ≡ filter (λ c. (c.0 == k) && is_some (a.from_claim c.1)) claims)
  unfolding history
  history_lem claims entries h =
      let same : sort_by_seq a (decode_all a claims) ≡ entries = ground arith in
      subst
        (λ es.
          IsOrdered es
          × All IsRead es
          × ((k : ℕ)
              → map (λ e. (e.seq, e.claim)) (filter (λ e. e.seq == k) es)
                ≡ filter (λ c. (c.0 == k) && is_some (a.from_claim c.1)) claims))
        same
        (
          sort-IsOrdered (decode_all a claims),
          sort-All (decode_all a claims) (decode_all-IsRead claims),
          λ k.
              ap (map (λ e. (e.seq, e.claim))) (sort-filter k (decode_all a claims))
              ∙ decode_all-filter k claims,
        )

customer_ref-injective : (m n : ℕ) → customer_ref m ≡ customer_ref n → m ≡ n
unfolding customer_ref concat
customer_ref-injective m n e =
    decimal_injective m n (ground (arith, append-nil (decimal m), append-nil (decimal n)))

abbrev is_released : Event → Bool
is_released released = true
is_released discharged = false

-- A claim of a release to one customer is not one to another.
other_party :
    (m n : ℕ) (party : Option Text)
    → m ≢ n
    → names_party (customer_ref n) party ≡ true
    → names_party (customer_ref m) party ≡ false
other_party m n none differ h = refl
other_party m n (some name) differ h = elim (Bool-cases (text_eq name (customer_ref m))) [
  | inr other ↦ other
  | inl also ↦ absurd (
      differ (
        customer_ref-injective m n (
          sym ((text_eq_iff name (customer_ref m)).0 also)
          ∙ (text_eq_iff name (customer_ref n)).0 h)))
]

-- The entry is a release to that customer.
abbrev pub released_to : {a : Archive} → ℕ → Entry a → Bool
released_to customer_id entry =
    is_released entry.body.event && names_party (customer_ref customer_id) entry.body.counterparty

module _ {a : Archive} (n : ℕ) where
  keeps_releases :
      (es : List (Entry a))
      → filter (released_to n) (filter (concerns n) es) ≡ filter (released_to n) es
  keeps_releases [] = refl
  keeps_releases (e ∷ es) = ground (arith, keeps_releases es)

  keeps_discharges :
      (es : List (Entry a))
      → filter (λ e. is_discharged e.body.event) (filter (concerns n) es)
        ≡ filter (λ e. is_discharged e.body.event) es
  keeps_discharges [] = refl
  keeps_discharges (e ∷ es) = ground (arith, keeps_discharges es)

  drops_others :
      (m : ℕ) (es : List (Entry a)) → m ≢ n → filter (released_to m) (filter (concerns n) es) ≡ []
  drops_others m [] differ = refl
  drops_others m (e ∷ es) differ =
      ground (arith, drops_others m es differ, other_party m n e.body.counterparty differ)

module _ (a : Archive) where
  kept-history :
      (n : ℕ) (log : Result Text (List (ℕ × a.SignedClaim))) (entries kept : List (Entry a))
      → history a log ≡ ok entries
      → history_for_customer a n log ≡ ok kept
      → kept ≡ filter (concerns n) entries
  unfolding history_for_customer
  kept-history n log entries kept h k =
      let same : kept_for a n (ok entries) ≡ ok kept = sym (ap (kept_for a n) h) ∙ k in ground arith

  -- The history for one customer shows every release to that customer, as the history has them, and
  -- no release to another customer.
  pub history_for_customer-releases :
      (n m : ℕ) (log : Result Text (List (ℕ × a.SignedClaim))) (entries kept : List (Entry a))
      → history a log ≡ ok entries
      → history_for_customer a n log ≡ ok kept
      → m ≢ n
      → (filter (released_to n) kept ≡ filter (released_to n) entries)
        × (filter (released_to m) kept ≡ [])
  history_for_customer-releases n m log entries kept h k differ =
      let e = kept-history n log entries kept h k in
      (
        ap (filter (released_to n)) e ∙ keeps_releases n entries,
        ap (filter (released_to m)) e ∙ drops_others n m entries differ,
      )

  -- Whichever customer is asked about, the history shows every Discharged claim of the whole log, in
  -- order, also those that concern another customer's artefacts.
  pub history_for_customer-discharged :
      (n : ℕ) (log : Result Text (List (ℕ × a.SignedClaim))) (entries kept : List (Entry a))
      → history a log ≡ ok entries
      → history_for_customer a n log ≡ ok kept
      → filter (λ e. is_discharged e.body.event) kept
        ≡ filter (λ e. is_discharged e.body.event) entries
  history_for_customer-discharged n log entries kept h k =
      ap (filter (λ e. is_discharged e.body.event)) (kept-history n log entries kept h k)
      ∙ keeps_discharges n entries
