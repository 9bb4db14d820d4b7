-- ===== src/Core/Order/Services.antt =====
-- The services: between one and six lines, and the lines that are stored read back as they are.
use hemsidor.Prelude.{
  ◌≤◌, Bool, true, false, not, ◌≡◌, refl, ◌↔◌, List, [], ◌∷◌, arith, is_empty, length, ltb, any,
  filter, ok, ap, ◌∙◌, sym, map, All, ◌==◌, Bool-cases, inl, inr,
}
use mathlib.Core.Path.{subst}
use hemsidor.Text.{Text}
use hemsidor.Text.Trim.{trim, trim-IsTrimmed, trim_of_IsTrimmed, IsTrimmed, all-trim}
use hemsidor.Text.Split.{join, lacks}
use hemsidor.Text.Lines.{lines, lines-join, lines-All-lacks, IsLine}
use hemsidor.Core.Scope.{max_services}
use hemsidor.Core.Validation.{service_max}
use hemsidor.Core.Order.{parse_services}

abbrev filled : Text → Bool
filled line = not (is_empty line)

-- The lines that are kept: trimmed, and the blank ones dropped.
pub kept : Text → List Text
kept raw = filter filled (map trim (lines raw))

-- One service: trimmed, not empty, on one line.
pub record IsService (s : Text) : Type 0 where
  pub trimmed : IsTrimmed s
  pub non_blank : is_empty s ≡ false
  pub one_line : lacks b'\n' s ≡ true

filtered-All :
    (ls : List Text)
    → All (λ s. lacks b'\n' s ≡ true) ls
    → All IsService (filter filled (map trim ls))
filtered-All [] h = tt
filtered-All (l ∷ ls) (h, hs) = elim (Bool-cases (is_empty (trim l))) [
  | inl blank ↦ rw blank (filtered-All ls hs)
  | inr filled_line ↦ rw filled_line (
    record {
      trimmed = trim-IsTrimmed l;
      non_blank = filled_line;
      one_line = all-trim (λ c. not (c == b'\n')) l h;
    },
    filtered-All ls hs,
  )
]

-- Every line that is kept is a service.
pub kept-All : (raw : Text) → All IsService (kept raw)
unfolding kept
kept-All raw = filtered-All (lines raw) (lines-All-lacks raw)

-- The services are accepted exactly when between one and six lines are kept, none of them longer
-- than the limit; they are those lines, in the order that they were written.
pub parse_services_iff :
    (raw : Text) (ls : List Text)
    → (parse_services raw ≡ ok ls) ↔ (
        (ls ≡ kept raw)
        × (1 ≤ length (kept raw))
        × (length (kept raw) ≤ max_services)
        × (any (λ line. ltb service_max (length line)) (kept raw) ≡ false))
unfolding parse_services kept
parse_services_iff raw ls = ground arith

kept_of_services : (ls : List Text) → All IsService ls → filter filled (map trim ls) ≡ ls
kept_of_services [] h = refl
kept_of_services (l ∷ ls) (h, hs) =
    rw (trim_of_IsTrimmed l h.trimmed, h.non_blank, kept_of_services ls hs)

All-IsLine : (ls : List Text) → All IsService ls → All IsLine ls
All-IsLine [] h = tt
All-IsLine (l ∷ ls) (h, hs) = ((h.one_line, h.trimmed.1, h.non_blank), All-IsLine ls hs)

kept-join :
    (l : Text) (ls : List Text)
    → All IsService (l ∷ ls)
    → kept (join (b'\n' ∷ []) (l ∷ ls)) ≡ l ∷ ls
unfolding kept
kept-join l ls h =
    ap (λ xs. filter filled (map trim xs)) (lines-join l ls (All-IsLine (l ∷ ls) h))
    ∙ kept_of_services (l ∷ ls) h

-- The services that were accepted, joined by newlines, are accepted again and are the same.
pub parse_services-join :
    (raw : Text) (ls : List Text)
    → parse_services raw ≡ ok ls
    → parse_services (join (b'\n' ∷ []) ls) ≡ ok ls
parse_services-join raw [] h =
    let (e, low, _, _) = (parse_services_iff raw []).0 h in absurd (omega (arith, ap length e))
parse_services-join raw (l ∷ ls) h =
    let (e, low, high, fits) = (parse_services_iff raw (l ∷ ls)).0 h in
    let again : kept (join (b'\n' ∷ []) (l ∷ ls)) ≡ kept raw =
      kept-join l ls (subst (All IsService) (sym e) (kept-All raw)) ∙ e in
    (parse_services_iff (join (b'\n' ∷ []) (l ∷ ls)) (l ∷ ls)).1
      (e ∙ sym again, rw again low, rw again high, rw again fits)
