-- ===== src/Tests/Forms.antt =====
-- The theorems on the order form, the choices and the messages, at concrete submissions.
use hemsidor.Prelude.{◌≡◌, refl, ◌↔◌, true, some, [], ◌∷◌, ◌++◌, ok, err, length, ◌≤◌, all}
use hemsidor.Text.{
  codes, is_whitespace, is_ascii_digit, eq_ignore_ascii_case, text_eq, to_ascii_lower,
}
use hemsidor.Text.Match.{starts_with, ends_with, contains}
use hemsidor.Text.Lines.{lines}
use hemsidor.Text.Trim.{trim, trim_start, trim_end}
use hemsidor.Text.Split.{split_on}
use hemsidor.Core.Validation.{
  Field, ValidationErrors, missing, collect, push, has_none, invalid_email,
}
use hemsidor.Core.Order.{
  OrderForm, Order, validate, required_text, validate_phone, validate_email, parse_services,
  assemble, is_phone_char, email_parts_valid, check_package, check_style,
}
use hemsidor.Core.Order.Report.{Accepts, problems, validate_iff, validate-err}
use hemsidor.Core.Order.Revalidate.{written, validate-written}
use hemsidor.Core.Order.Sound.{IsSound, validate-IsSound}
use hemsidor.Core.Style
use hemsidor.Core.Style.{Style, modern}
use hemsidor.Core.Package
use hemsidor.Core.Package.{Package, start}
use hemsidor.Core.Status.{
  ny, utkast_skickat, godkand, publicerad, can_transition_to, transition_to, next_allowed,
}
use hemsidor.Core.Status.Laws.{walk, walk_bounded, walk-published}
use hemsidor.Handover.Asset.{Asset, Artefact, item_ref, asset_of, identifier_of}
use hemsidor.Handover.Asset.Laws.{item_ref_reads_back}

abbrev bakery : OrderForm
bakery = record {
  company = codes " Bageriet";
  city = codes "Lund";
  phone = codes "046-12345";
  email = codes "a@b.se";
  services = codes "ost";
  style = codes "modern";
  «package» = codes "start";
}

abbrev bakery_order : Order
bakery_order = record {
  company = codes "Bageriet";
  city = codes "Lund";
  phone = codes "046-12345";
  email = codes "a@b.se";
  services = codes "ost" ∷ [];
  style = modern;
  «package» = start;
}

bakery_ok : validate bakery ≡ ok bakery_order
unfolding validate assemble collect required_text trim trim_end trim_start is_whitespace
    validate_phone is_ascii_digit is_phone_char validate_email email_parts_valid split_on
    starts_with ends_with contains parse_services check_package check_style Package.label_sv
    Package.named_by Package.parse Package.slug Style.label_sv Style.named_by Style.parse Style.slug
    has_none push lines eq_ignore_ascii_case text_eq to_ascii_lower
bakery_ok = refl

-- A blank city and an address without a dot.
abbrev half_empty : OrderForm
half_empty = record {
  company = codes "Bageriet";
  city = codes " ";
  phone = codes "046-12345";
  email = codes "a@b";
  services = codes "ost";
  style = codes "modern";
  «package» = codes "start";
}

abbrev half_empty_errors : ValidationErrors
half_empty_errors = record { errors = (Field.city, missing) ∷ (Field.email, invalid_email) ∷ [] }

half_empty_refused : validate half_empty ≡ err half_empty_errors
unfolding validate assemble collect required_text trim trim_end trim_start is_whitespace
    validate_phone is_ascii_digit is_phone_char validate_email email_parts_valid split_on
    starts_with ends_with contains parse_services check_package check_style Package.label_sv
    Package.named_by Package.parse Package.slug Style.label_sv Style.named_by Style.parse Style.slug
    has_none push lines eq_ignore_ascii_case text_eq to_ascii_lower
half_empty_refused = refl

validate_iff_example : (validate bakery ≡ ok bakery_order) ↔ Accepts bakery bakery_order
validate_iff_example = validate_iff bakery bakery_order

validate-err_example : half_empty_errors.errors ≡ problems half_empty
validate-err_example = validate-err half_empty {e = half_empty_errors} half_empty_refused

validate-written_example : validate (written bakery_order) ≡ ok bakery_order
validate-written_example = validate-written bakery bakery_order bakery_ok

validate-IsSound_example : IsSound bakery_order
validate-IsSound_example = validate-IsSound bakery bakery_order bakery_ok

two_lines :
    parse_services (codes " ost " ++ b'\n' ∷ b'\n' ∷ codes "te")
    ≡ ok (codes "ost" ∷ codes "te" ∷ [])
unfolding parse_services trim trim_end trim_start is_whitespace lines split_on
two_lines = refl

blank : all is_whitespace (b' ' ∷ []) ≡ true
unfolding is_whitespace
blank = refl

happy : walk ny (utkast_skickat ∷ godkand ∷ publicerad ∷ []) ≡ ok publicerad
unfolding walk transition_to can_transition_to next_allowed
happy = refl

walk_bounded_example : length (utkast_skickat ∷ godkand ∷ publicerad ∷ []) ≤ 3
walk_bounded_example =
    walk_bounded ny (utkast_skickat ∷ godkand ∷ publicerad ∷ []) {t = publicerad} happy

walk-published_example :
    utkast_skickat ∷ godkand ∷ publicerad ∷ [] ≡ utkast_skickat ∷ godkand ∷ publicerad ∷ []
walk-published_example = walk-published (utkast_skickat ∷ godkand ∷ publicerad ∷ []) happy

abbrev a_domain : Artefact
a_domain = record { asset = Asset.domain; identifier = codes "a:b" }

item_ref_reads_back_example :
    (asset_of (item_ref a_domain) ≡ some Asset.domain)
    × (identifier_of (item_ref a_domain) ≡ codes "a:b")
item_ref_reads_back_example = item_ref_reads_back a_domain
