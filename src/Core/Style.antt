-- ===== src/Core/Style.antt =====
-- crates/hemsidor24-core/src/style.rs: the six styles.
pub mod Laws
use hemsidor.Prelude.{ℕ, Bool, true, false, ◌||◌, List, [], ◌∷◌, ◌==◌, find, Result, ok_or}
use hemsidor.Text.{Text, codes, text_eq, eq_ignore_ascii_case}
use hemsidor.Text.Trim.{trim}
use hemsidor.Core.Validation.{ParseChoiceError}

pub data Style : Type 0 where
  klassisk modern djarv student forening overraska_mig : Style

abbrev pub all_styles : List Style
all_styles = klassisk ∷ modern ∷ djarv ∷ student ∷ forening ∷ overraska_mig ∷ []

unfoldable pub slug : Style → Text
slug klassisk = codes "klassisk"
slug modern = codes "modern"
slug djarv = codes "djarv"
slug student = codes "student"
slug forening = codes "forening"
slug overraska_mig = codes "overraska-mig"

unfoldable pub label_sv : Style → Text
label_sv klassisk = codes "Klassisk"
label_sv modern = codes "Modern"
label_sv djarv = codes "Djärv"
label_sv student = codes "Student"
label_sv forening = codes "Förening"
label_sv overraska_mig = codes "Överraska mig"

unfoldable pub studio_chooses : Style → Bool
studio_chooses overraska_mig = true
studio_chooses _ = false

-- One round of the search of `from_str`, on the trimmed text.
unfoldable pub named_by : Text → Style → Bool
named_by t st = eq_ignore_ascii_case t (slug st) || text_eq t (label_sv st)

unfoldable pub parse : Text → Result ParseChoiceError Style
parse s = ok_or (find (named_by (trim s)) all_styles) ParseChoiceError.style

-- The derived `PartialEq`: the same variant.
abbrev pub variant : Style → ℕ
variant klassisk = 0
variant modern = 1
variant djarv = 2
variant student = 3
variant forening = 4
variant overraska_mig = 5

abbrev pub style_eq : Style → Style → Bool
style_eq s t = variant s == variant t
