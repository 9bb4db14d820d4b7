-- ===== src/Core/Package/Laws.antt =====
-- The prices are exact, and every spelling of a package on the page reads back.
use hemsidor.Prelude.{◌*◌, ◌+◌, ◌<◌, ◌^◌, ◌≡◌, refl, ◌++◌, arith, ok, find, ok_or}
use hemsidor.Text.{Text, codes, text_eq, eq_ignore_ascii_case, to_ascii_lower, is_whitespace}
use hemsidor.Text.Trim.{trim, trim_start, trim_end, trim_idem, trim-append}
use hemsidor.Text.Match.{starts_with}
use hemsidor.Core.Scope.{vat_percent}
use hemsidor.Core.Validation.{ParseChoiceError}
use hemsidor.Core.Package.{
  Package, start, pro, all_packages, slug, label_sv, price_sek_ex_vat, price_ore_inc_vat, named_by,
  parse,
}

-- The price with VAT is exact: no division drops anything, and no product wraps around.
price_exact :
    (p : Package)
    → (price_ore_inc_vat p * 100 ≡ price_sek_ex_vat p * 100 * (100 + vat_percent))
      × (price_sek_ex_vat p * 100 * (100 + vat_percent) < 2 ^ 32)
unfolding price_ore_inc_vat price_sek_ex_vat
price_exact start = (refl, omega arith)
price_exact pro = (refl, omega arith)

trim-label : (p : Package) (t : Text) → trim (label_sv p ++ t) ≡ label_sv p ++ trim_end t
unfolding label_sv is_whitespace
trim-label start t = trim-append b'S' (codes "tart") t (refl, refl)
trim-label pro t = trim-append b'P' (codes "ro") t (refl, refl)

find-label :
    (p : Package) (t : Text)
    → ok_or (find (named_by (label_sv p ++ t)) all_packages) ParseChoiceError.«package» ≡ ok p
unfolding named_by label_sv slug eq_ignore_ascii_case text_eq to_ascii_lower starts_with
find-label start t = ground arith
find-label pro t = ground arith

-- A text that begins with a package's label is that package, whatever follows.
pub parse-label : (p : Package) (t : Text) → parse (label_sv p ++ t) ≡ ok p
unfolding parse
parse-label p t = rw (trim-label p t) (find-label p (trim_end t))

-- So is its slug.
pub parse-slug : (p : Package) → parse (slug p) ≡ ok p
unfolding parse slug label_sv named_by eq_ignore_ascii_case text_eq to_ascii_lower starts_with trim
    trim_start trim_end is_whitespace
parse-slug start = refl
parse-slug pro = refl

pub parse-trim : (t : Text) → parse (trim t) ≡ parse t
unfolding parse
parse-trim t = rw (trim_idem t)
