-- ===== src/Core/Style/Laws.antt =====
-- Every spelling of a style that the page offers reads back, also with white space around it.
use hemsidor.Prelude.{◌≡◌, refl, List, [], ◌∷◌, ◌++◌, ok, find, ok_or}
use hemsidor.Text.{Text, codes, text_eq, eq_ignore_ascii_case, to_ascii_lower, is_whitespace}
use hemsidor.Text.Trim.{trim, trim_start, trim_end, trim_idem, trim-pad, IsBlank}
use hemsidor.Core.Validation.{ParseChoiceError}
use hemsidor.Core.Style.{
  Style, klassisk, modern, djarv, student, forening, overraska_mig, all_styles, slug, label_sv,
  named_by, parse,
}

-- The spellings of a style: its slug and its label.
abbrev pub spellings : Style → List Text
spellings s = slug s ∷ label_sv s ∷ []

style_code : Unit {0}
unfolding slug label_sv named_by eq_ignore_ascii_case text_eq to_ascii_lower
style_code = tt

find-slug : (s : Style) → ok_or (find (named_by (slug s)) all_styles) ParseChoiceError.style ≡ ok s
unfolding style_code
find-slug klassisk = refl
find-slug _ = refl

find-label :
    (s : Style) → ok_or (find (named_by (label_sv s)) all_styles) ParseChoiceError.style ≡ ok s
unfolding style_code
find-label klassisk = refl
find-label _ = refl

trim-slug :
    (pre Post : Text) (s : Style)
    → IsBlank pre
    → IsBlank Post
    → trim (pre ++ (slug s ++ Post)) ≡ slug s
unfolding slug is_whitespace
trim-slug pre Post klassisk h k = trim-pad pre b'k' (codes "lassisk") Post h (refl, refl) k
trim-slug pre Post modern h k = trim-pad pre b'm' (codes "odern") Post h (refl, refl) k
trim-slug pre Post djarv h k = trim-pad pre b'd' (codes "jarv") Post h (refl, refl) k
trim-slug pre Post student h k = trim-pad pre b's' (codes "tudent") Post h (refl, refl) k
trim-slug pre Post forening h k = trim-pad pre b'f' (codes "orening") Post h (refl, refl) k
trim-slug pre Post overraska_mig h k =
    trim-pad pre b'o' (codes "verraska-mig") Post h (refl, refl) k

trim-label :
    (pre Post : Text) (s : Style)
    → IsBlank pre
    → IsBlank Post
    → trim (pre ++ (label_sv s ++ Post)) ≡ label_sv s
unfolding label_sv is_whitespace
trim-label pre Post klassisk h k = trim-pad pre b'K' (codes "lassisk") Post h (refl, refl) k
trim-label pre Post modern h k = trim-pad pre b'M' (codes "odern") Post h (refl, refl) k
trim-label pre Post djarv h k = trim-pad pre b'D' (codes "järv") Post h (refl, refl) k
trim-label pre Post student h k = trim-pad pre b'S' (codes "tudent") Post h (refl, refl) k
trim-label pre Post forening h k = trim-pad pre b'F' (codes "örening") Post h (refl, refl) k
trim-label pre Post overraska_mig h k =
    trim-pad pre 0xd6 (codes "verraska mig") Post h (refl, refl) k

-- The slug of a style and its label, each with any white space around it, read back as the style.
parse-spelling :
    (s : Style) (pre Post : Text)
    → IsBlank pre
    → IsBlank Post
    → (parse (pre ++ (slug s ++ Post)) ≡ ok s) × (parse (pre ++ (label_sv s ++ Post)) ≡ ok s)
unfolding parse
parse-spelling s pre Post h k =
    (rw (trim-slug pre Post s h k) (find-slug s), rw (trim-label pre Post s h k) (find-label s))

pub parse-slug : (s : Style) → parse (slug s) ≡ ok s
unfolding parse style_code trim trim_start trim_end is_whitespace
parse-slug klassisk = refl
parse-slug _ = refl

pub parse-trim : (t : Text) → parse (trim t) ≡ parse t
unfolding parse
parse-trim t = rw (trim_idem t)
