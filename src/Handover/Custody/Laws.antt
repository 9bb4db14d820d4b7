-- ===== src/Handover/Custody/Laws.antt =====
-- What the cell's log holds after custody was released.
use hemsidor.Prelude.{
  ℕ, ◌≡◌, refl, sym, ap, ◌∙◌, inl, inr, some, List, [], ◌∷◌, ◌++◌, map, ok, err, Result,
  Result-cases, arith,
}
use mathlib.Core.Path.{subst}
use mathlib.Core.List.{append-nil, append_assoc}
use hemsidor.Text.{Text}
use hemsidor.Handover.Asset.{Artefact, item_ref, customer_ref}
use hemsidor.Handover.Cell.{Cell, IsCell, Handoff, released}
use hemsidor.Handover.Custody.{
  HandoverError, nothing_to_transfer, Issuing, cell_error, push_issued, issue_one, released_claim,
  issue_all, release_custody,
}

-- The claim that an artefact has passed to a party.
pub record IsClaim (name : Text) (a : Artefact) (h : Handoff) : Type 0 where
  pub item : h.item ≡ item_ref a
  pub event : h.event ≡ released
  pub counterparty : h.counterparty ≡ some name

-- One claim for each artefact, in their order.
abbrev pub Signs : Text → List Artefact → List (ℕ × Handoff) → Type 0
Signs counterparty [] [] = Unit
Signs counterparty [] (entry ∷ entries) = ⊥
Signs counterparty (a ∷ artefacts) [] = ⊥
Signs counterparty (a ∷ artefacts) (entry ∷ entries) =
    IsClaim counterparty a entry.1 × Signs counterparty artefacts entries

-- One claim for each of the first artefacts.
abbrev pub SignsFirst : Text → List Artefact → List (ℕ × Handoff) → Type 0
SignsFirst counterparty artefacts [] = Unit
SignsFirst counterparty [] (entry ∷ entries) = ⊥
SignsFirst counterparty (a ∷ artefacts) (entry ∷ entries) =
    IsClaim counterparty a entry.1 × SignsFirst counterparty artefacts entries

module _ (c : Cell) (laws : IsCell c) (counterparty : Text) where
  released_claim-IsClaim :
      (a : Artefact) (h : Handoff)
      → released_claim c counterparty a ≡ ok h
      → IsClaim counterparty a h
  unfolding released_claim
  released_claim-IsClaim a h e = elim (Result-cases (c.new_handoff (item_ref a) released)) [
    | inr (why, e1) ↦ absurd (ground arith)
    | inl (k, e1) ↦ elim (Result-cases (c.with_counterparty counterparty k)) [
      | inr (why, e2) ↦ absurd (ground arith)
      | inl (l, e2) ↦
          let built = laws.new_handoff_item (item_ref a) released k e1 in
          let named = laws.with_counterparty_item counterparty k l e2 in
          let same : l ≡ h = ground arith in
          subst (IsClaim counterparty a) same
            (record { item = named.0 ∙ built.0; event = named.1 ∙ built.1; counterparty = named.2 })
    ]
  ]

  -- What one run of the loop has added to the log.
  pub record Issued (artefacts : List Artefact) (issued : List ℕ) (s : c.State)
      (r : Result HandoverError (List ℕ)) (after : c.State) : Type 0 where
    pub added : List (ℕ × Handoff)
    pub log : c.claims after ≡ c.claims s ++ added
    pub first : SignsFirst counterparty artefacts added
    pub all :
        (ids : List ℕ)
        → r ≡ ok ids
        → Signs counterparty artefacts added × (ids ≡ issued ++ map (λ entry. entry.0) added)

  nothing_added :
      (artefacts : List Artefact) (issued : List ℕ) (s after : c.State) (why : HandoverError)
      → c.claims after ≡ c.claims s
      → Issued artefacts issued s (err why) after
  nothing_added artefacts issued s after why e = record {
    added = [];
    log = e ∙ sym (append-nil (c.claims s));
    first = tt;
    all = λ ids h. absurd (ground arith);
  }

  pushed :
      (a : Artefact) (artefacts : List Artefact) (issued : List ℕ) (s : c.State) (rest : Issuing c)
      (body : Handoff) (r : Result Text ℕ) (t : c.State)
      → IsClaim counterparty a body
      → ((id : ℕ) → r ≡ ok id → c.claims t ≡ c.claims s ++ (id, body) ∷ [])
      → ((why : Text) → r ≡ err why → c.claims t ≡ c.claims s)
      → ((ids : List ℕ) → Issued artefacts ids t (rest ids t).0 (rest ids t).1)
      → Issued
          (a ∷ artefacts)
          issued
          s
          (push_issued c r rest issued t).0
          (push_issued c r rest issued t).1
  pushed a artefacts issued s rest body (err why) t claim yes_ no_ ih =
      nothing_added (a ∷ artefacts) issued s t (cell_error why) (no_ why refl)
  pushed a artefacts issued s rest body (ok id) t claim yes_ no_ ih =
      let later = ih (issued ++ id ∷ []) in
      record {
        added = (id, body) ∷ later.added;
        log =
            later.log
            ∙ (ap (λ l. l ++ later.added) (yes_ id refl)
                ∙ append_assoc (c.claims s) ((id, body) ∷ []) later.added);
        first = (claim, later.first);
        all = λ ids h. (
          (claim, (later.all ids h).0),
          (later.all ids h).1 ∙ append_assoc issued (id ∷ []) (map (λ entry. entry.0) later.added),
        );
      }

  one :
      (a : Artefact) (artefacts : List Artefact) (issued : List ℕ) (s : c.State) (rest : Issuing c)
      (r : Result HandoverError Handoff)
      → released_claim c counterparty a ≡ r
      → ((ids : List ℕ) (t : c.State) → Issued artefacts ids t (rest ids t).0 (rest ids t).1)
      → Issued
          (a ∷ artefacts)
          issued
          s
          (issue_one c r rest issued s).0
          (issue_one c r rest issued s).1
  one a artefacts issued s rest (err why) e ih = nothing_added (a ∷ artefacts) issued s s why refl
  one a artefacts issued s rest (ok body) e ih =
      pushed a artefacts issued s rest body (c.issue body s).0 (c.issue body s).1
        (released_claim-IsClaim a body e) (λ id h. laws.issue_ok body s id h)
        (λ why h. laws.issue_err body s why h) (λ ids. ih ids (c.issue body s).1)

  issue_all-Issued :
      (artefacts : List Artefact) (issued : List ℕ) (s : c.State)
      → Issued artefacts issued s
          (issue_all c counterparty artefacts issued s).0
          (issue_all c counterparty artefacts issued s).1
  unfolding issue_all
  issue_all-Issued [] issued s = record {
    added = [];
    log = sym (append-nil (c.claims s));
    first = tt;
    all = λ ids e. (tt, ground (arith, append-nil issued));
  }
  issue_all-Issued (a ∷ artefacts) issued s =
      one a artefacts issued s (λ ids t. issue_all c counterparty artefacts ids t)
        (released_claim c counterparty a) refl (λ ids t. issue_all-Issued artefacts ids t)

custody :
    (c : Cell) (laws : IsCell c) (customer_id : ℕ) (artefacts : List Artefact) (s : c.State)
    → Issued c laws
        (customer_ref customer_id)
        artefacts
        []
        s
        (release_custody c customer_id artefacts s).0
        (release_custody c customer_id artefacts s).1
unfolding release_custody
custody c laws customer_id [] s =
    nothing_added c laws (customer_ref customer_id) [] [] s s nothing_to_transfer refl
custody c laws customer_id (a ∷ artefacts) s =
    issue_all-Issued c laws (customer_ref customer_id) (a ∷ artefacts) [] s

-- With a cell that keeps to IsCell: releasing custody, however it ends, appends to the cell's log
-- Released claims for the first of the artefacts asked for, one each and in their order, that name
-- the customer as counterparty, and changes nothing else of the log.
release_custody-SignsFirst :
    (c : Cell) (laws : IsCell c) (customer_id : ℕ) (artefacts : List Artefact) (s : c.State)
    → (added : List (ℕ × Handoff)) × (c.claims (release_custody c customer_id artefacts s).1
        ≡ c.claims s ++ added)
      × SignsFirst (customer_ref customer_id) artefacts added
release_custody-SignsFirst c laws customer_id artefacts s =
    let r = custody c laws customer_id artefacts s in (r.added, r.log, r.first)

-- With a cell that keeps to IsCell: where releasing custody answers with identifiers, it has
-- appended to the cell's log one Released claim for each artefact asked for, in their order and
-- naming the customer as counterparty, and the identifiers are those of the new claims.
pub release_custody-Signs :
    (c : Cell) (laws : IsCell c) (customer_id : ℕ) (artefacts : List Artefact) (s : c.State)
    (ids : List ℕ)
    → (release_custody c customer_id artefacts s).0 ≡ ok ids
    → (added : List (ℕ × Handoff)) × (c.claims (release_custody c customer_id artefacts s).1
        ≡ c.claims s ++ added)
      × Signs (customer_ref customer_id) artefacts added
      × (ids ≡ map (λ entry. entry.0) added)
release_custody-Signs c laws customer_id artefacts s ids h =
    let r = custody c laws customer_id artefacts s in
    (r.added, r.log, (r.all ids h).0, (r.all ids h).1)
