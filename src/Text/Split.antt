-- ===== src/Text/Split.antt =====
-- `str::split` at a character, and `join`.
use hemsidor.Prelude.{
  ℕ, Bool, true, false, not, ◌≡◌, refl, List, [], ◌∷◌, ◌++◌, arith, ◌==◌, all, All, ap, ap₂, sym,
  ◌∙◌, Bool-cases, inl, inr, ==_iff, if◌then◌else◌,
}
use hemsidor.Text.{Text}

push_head : ℕ → List Text → List Text
push_head c [] = (c ∷ []) ∷ []
push_head c (part ∷ parts) = (c ∷ part) ∷ parts

-- `t.split(ch)`: always at least one part.
unfoldable pub split_on : ℕ → Text → List Text
unfolding push_head
split_on d [] = [] ∷ []
split_on d (c ∷ s) = let parts = split_on d s in if c == d then [] ∷ parts else push_head c parts

-- `parts.join(sep)`
unfoldable pub join : Text → List Text → Text
join sep [] = []
join sep (part ∷ []) = part
join sep (part ∷ next ∷ parts) = part ++ (sep ++ join sep (next ∷ parts))

-- No character of the text is `d`.
abbrev pub lacks : ℕ → Text → Bool
lacks d t = all (λ c. not (c == d)) t

split_on-append_part :
    (d : ℕ) (s rest : Text) → lacks d s ≡ true → split_on d (s ++ d ∷ rest) ≡ s ∷ split_on d rest
unfolding split_on
split_on-append_part d [] rest h = ground arith
split_on-append_part d (c ∷ s) rest h = ground (arith, split_on-append_part d s rest)

split_on_of_lacks : (d : ℕ) (s : Text) → lacks d s ≡ true → split_on d s ≡ s ∷ []
unfolding split_on
split_on_of_lacks d [] h = refl
split_on_of_lacks d (c ∷ s) h = ground (arith, split_on_of_lacks d s)

-- Splitting what was joined gives the parts back, if none of them holds the separator.
pub split_on-join :
    (d : ℕ) (part : Text) (parts : List Text)
    → All (λ s. lacks d s ≡ true) (part ∷ parts)
    → split_on d (join (d ∷ []) (part ∷ parts)) ≡ part ∷ parts
unfolding join
split_on-join d part [] (h, _) = split_on_of_lacks d part h
split_on-join d part (next ∷ parts) (h, hs) =
    split_on-append_part d part (join (d ∷ []) (next ∷ parts)) h
    ∙ ap (λ ps. part ∷ ps) (split_on-join d next parts hs)

lacks_of_eq : (d c : ℕ) (s : Text) → (c == d) ≡ false → lacks d s ≡ true → lacks d (c ∷ s) ≡ true
lacks_of_eq d c s h k = ground arith

push_head-All :
    (d c : ℕ) (parts : List Text)
    → (c == d) ≡ false
    → All (λ s. lacks d s ≡ true) parts
    → All (λ s. lacks d s ≡ true) (push_head c parts)
unfolding push_head
push_head-All d c [] h k = (lacks_of_eq d c [] h refl, tt)
push_head-All d c (part ∷ parts) h (k, ks) = (lacks_of_eq d c part h k, ks)

-- No part holds the separator.
pub split_on-All-lacks : (d : ℕ) (t : Text) → All (λ s. lacks d s ≡ true) (split_on d t)
unfolding split_on
split_on-All-lacks d [] = (refl, tt)
split_on-All-lacks d (c ∷ s) =
    ground (arith, split_on-All-lacks d s, push_head-All d c (split_on d s))

join-push_head :
    (d c : ℕ) (part : Text) (parts : List Text)
    → join (d ∷ []) (push_head c (part ∷ parts)) ≡ c ∷ join (d ∷ []) (part ∷ parts)
unfolding join push_head
join-push_head d c part [] = refl
join-push_head d c part (next ∷ parts) = refl

join_nil_head :
    (d : ℕ) (part : Text) (parts : List Text)
    → join (d ∷ []) ([] ∷ part ∷ parts) ≡ d ∷ join (d ∷ []) (part ∷ parts)
unfolding join
join_nil_head d part parts = refl

split_on-nonempty :
    (d : ℕ) (t : Text) → (part : Text) × (parts : List Text) × (split_on d t ≡ part ∷ parts)
unfolding split_on
split_on-nonempty d [] = ([], [], refl)
split_on-nonempty d (c ∷ s) = go (c == d) (split_on-nonempty d s)
  where
    go :
        (b : Bool)
        → (part : Text) × (parts : List Text) × (split_on d s ≡ part ∷ parts)
        → (part : Text) × (parts : List Text) × ((if b
              then [] ∷ split_on d s
              else push_head c (split_on d s))
            ≡ part ∷ parts)
    go true (part, parts, e) = ([], split_on d s, refl)
    go false (part, parts, e) = (c ∷ part, parts, ap (push_head c) e)

join_step :
    (d c : ℕ) (s : Text)
    → join (d ∷ []) (split_on d s) ≡ s
    → join (d ∷ []) (split_on d (c ∷ s)) ≡ c ∷ s
unfolding split_on
join_step d c s h =
    let (part, parts, e) = split_on-nonempty d s in
    elim (Bool-cases (c == d)) [
      | inl same ↦
          rw (same, split_on, e)
            (join_nil_head d part parts
              ∙ ap₂ (λ x y. x ∷ y) (sym ((==_iff c d).0 same)) (ap (join (d ∷ [])) (sym e) ∙ h))
      | inr other ↦
          rw (other, split_on, e)
            (join-push_head d c part parts ∙ ap (λ y. c ∷ y) (ap (join (d ∷ [])) (sym e) ∙ h))
    ]

-- Joining the parts again gives the text back.
pub join-split_on : (d : ℕ) (t : Text) → join (d ∷ []) (split_on d t) ≡ t
join-split_on d [] = unfold join split_on in refl
join-split_on d (c ∷ s) = join_step d c s (join-split_on d s)

pub join_two : (d : ℕ) (a b : Text) → join (d ∷ []) (a ∷ b ∷ []) ≡ a ++ d ∷ b
unfolding join
join_two d a b = refl
