-- ===== src/Studio/Signing/Laws.antt =====
-- A transfer flag stands for a signed claim.
use hemsidor.Prelude.{
  ℕ, Bool, true, false, ◌&&◌, ◌≡◌, refl, sym, ap, ◌∙◌, ◌⊎◌, inl, inr, List, [], ◌∷◌, ◌++◌, ok,
  Result-cases, Bool-cases, is_empty, arith, if◌then◌else◌,
}
use mathlib.Core.Path.{subst}
use hemsidor.Text.{Text}
use hemsidor.Handover.Asset.{Asset, Artefact, asset_eq, customer_ref}
use hemsidor.Handover.Cell.{Cell, IsCell, Handoff}
use hemsidor.Handover.Custody.{release_custody}
use hemsidor.Handover.Custody.Laws.{IsClaim, Signs, release_custody-Signs}
use hemsidor.Studio.Signing.{Artefacts, Signed, unsigned, planned, named, flags, to_sign, sign}

-- Some member of a list satisfies the predicate.
abbrev pub Held {ℓ} : {A : Type ℓ} → (A → Type 0) → List A → Type 0
Held P [] = ⊥
Held P (x ∷ xs) = P x ⊎ Held P xs

module _ {ℓ} {A : Type ℓ} (P : A → Type 0) where
  Held-append : (xs ys : List A) → Held P ys → Held P (xs ++ ys)
  Held-append [] ys h = h
  Held-append (x ∷ xs) ys h = inr (Held-append xs ys h)

-- The flag of one kind of artefact.
abbrev pub flag : Asset → Signed → Bool
flag Asset.domain signed = signed.domain
flag Asset.hosting signed = signed.hosting
flag Asset.source_code signed = signed.source

-- The entry of the log says that an artefact of that kind has passed to that customer.
abbrev pub PassedTo : ℕ → Asset → ℕ × Handoff → Type 0
PassedTo customer_id asset entry =
    (identifier : Text) × IsClaim (customer_ref customer_id)
      (record { asset = asset; identifier = identifier }) entry.1

asset_eq_sound : (a b : Asset) → asset_eq a b ≡ true → a ≡ b
asset_eq_sound a b h = ground arith

-- What holds of both branches holds of the conditional.
if-both : {A : Type 0} (P : A → Type 0) (b : Bool) (x y : A) → P x → P y → P (if b then x else y)
if-both P true x y p q = p
if-both P false x y p q = q

module _ (customer_id : ℕ) (asset : Asset) where
  Signs-Held :
      (artefacts : List Artefact) (added : List (ℕ × Handoff))
      → Signs (customer_ref customer_id) artefacts added
      → named asset artefacts ≡ true
      → Held (PassedTo customer_id asset) added
  Signs-Held [] [] h e = absurd (ground arith)
  Signs-Held [] (x ∷ xs) h e = absurd h
  Signs-Held (a ∷ artefacts) [] h e = absurd h
  Signs-Held (a ∷ artefacts) (x ∷ xs) (h, hs) e = elim (Bool-cases (asset_eq a.asset asset)) [
    | inl here ↦ inl (
      a.identifier,
      subst
          (λ k.
            IsClaim (customer_ref customer_id) (record { asset = k; identifier = a.identifier })
              x.1)
          (asset_eq_sound a.asset asset here) h,
    )
    | inr there ↦ inr (Signs-Held artefacts xs hs (ground arith))
  ]

  module _ (c : Cell) (laws : IsCell c) (signing : Bool) where
    unsigned-flag : flag asset unsigned ≡ false
    unsigned-flag = ground arith

    flags-ok :
        (asked : List Artefact) (ids : List ℕ)
        → flag asset (flags c signing asked (ok ids)) ≡ named asset asked
    flags-ok asked ids =
        elim asset as (λ a. flag a (flags c signing asked (ok ids)) ≡ named a asked) [
          | Asset.domain ↦ refl
          | Asset.hosting ↦ refl
          | Asset.source_code ↦ refl
        ]

    released-flag :
        (asked : List Artefact) (s : c.State)
        → flag asset (flags c signing asked (release_custody c customer_id asked s).0) ≡ true
        → Held (PassedTo customer_id asset) (c.claims (release_custody c customer_id asked s).1)
    released-flag asked s h = elim (Result-cases (release_custody c customer_id asked s).0) [
      | inr (why, e) ↦
          let shut : true ≡ false =
            sym h ∙ (ap (λ r. flag asset (flags c signing asked r)) e ∙ unsigned-flag) in
          absurd (ground arith)
      | inl (ids, e) ↦
          let log = release_custody-Signs c laws customer_id asked s ids e in
          subst (Held (PassedTo customer_id asset)) (sym log.1) (
            Held-append (PassedTo customer_id asset) (c.claims s) log.0 (
              Signs-Held asked log.0 log.2 (
                sym (flags-ok asked ids)
                ∙ (sym (ap (λ r. flag asset (flags c signing asked r)) e) ∙ h))))
    ]

    abbrev Backed : Signed × c.State → Type 0
    Backed r = flag asset r.0 ≡ true → Held (PassedTo customer_id asset) (c.claims r.1)

    unsigned-Backed : (s : c.State) → Backed (unsigned, s)
    unsigned-Backed s h = let shut : true ≡ false = sym h ∙ unsigned-flag in absurd (ground arith)

    -- With a cell that keeps to IsCell: a transfer flag that signing answers with is set only
    -- where the cell's log then holds a Released claim for an artefact of that kind whose
    -- counterparty is the customer.
    pub sign-flag :
        (artefacts : Artefacts) (s : c.State)
        → flag asset (sign c signing customer_id artefacts s).0 ≡ true
        → Held (PassedTo customer_id asset) (c.claims (sign c signing customer_id artefacts s).1)
    unfolding sign
    sign-flag artefacts s =
        if-both Backed (signing && c.can_open s) _ _
          (if-both Backed (is_empty (planned artefacts)) _ _ (unsigned-Backed s)
            (released-flag (to_sign c signing artefacts) s))
          (unsigned-Backed s)
