-- ===== src/Web/Form/Laws.antt =====
-- What a customer finds in the form that comes back, and what its radios post.
use hemsidor.Prelude.{ℕ, ◌≡◌, refl, ap, ◌∙◌, Option, some, map, ok, err, to_option}
use mathlib.Core.Option
use hemsidor.Text.{Text, is_whitespace, text_eq, eq_ignore_ascii_case, to_ascii_lower}
use hemsidor.Text.Match.{starts_with}
use hemsidor.Text.Trim.{trim, trim_start, trim_end}
use hemsidor.Core.Validation.{Field, ValidationErrors, for_field}
use hemsidor.Core.Order.{validate}
use hemsidor.Core.Order.Report.{failure_of, for_field-validate}
use hemsidor.Core.Style
use hemsidor.Core.Style.{Style, all_styles, style_eq}
use hemsidor.Core.Package
use hemsidor.Core.Package.{Package, all_packages, package_eq}
use hemsidor.Web.Form.{
  OrderSubmission, to_core, FieldView, choice, message_sv, style_choices, package_choices,
  from_rejected,
}

-- The sentence that belongs under a field of a submission, if any.
abbrev pub sentence : OrderSubmission → Field → Option Text
sentence submission field = Option.map message_sv (failure_of (to_core submission) field)

shown_view : Text → Option Text → FieldView
shown_view value error = record { value = value; error = error }

-- A form that was rejected comes back with what was typed in each text field and, under each field
-- and group, the sentence for that field's own check, and none where the check passed.
pub from_rejected_lem :
    (submission : OrderSubmission) (errors : ValidationErrors) (now : ℕ)
    → validate (to_core submission) ≡ err errors
    → ((from_rejected submission errors now).company
        ≡ record { value = submission.foretag; error = sentence submission Field.company })
      × ((from_rejected submission errors now).city
          ≡ record { value = submission.ort; error = sentence submission Field.city })
      × ((from_rejected submission errors now).phone
          ≡ record { value = submission.tel; error = sentence submission Field.phone })
      × ((from_rejected submission errors now).email
          ≡ record { value = submission.epost; error = sentence submission Field.email })
      × ((from_rejected submission errors now).services
          ≡ record { value = submission.tjanster; error = sentence submission Field.services })
      × ((from_rejected submission errors now).style_error ≡ sentence submission Field.style)
      × ((from_rejected submission errors now).package_error ≡ sentence submission Field.«package»)
unfolding from_rejected shown_view
from_rejected_lem submission errors now h =
    let shown : (field : Field)
        → Option.map message_sv (for_field field errors) ≡ sentence submission field =
      λ field.
        ap (Option.map message_sv) (for_field-validate (to_core submission) {e = errors} field h) in
    (
      ap (shown_view submission.foretag) (shown Field.company),
      ap (shown_view submission.ort) (shown Field.city),
      ap (shown_view submission.tel) (shown Field.phone),
      ap (shown_view submission.epost) (shown Field.email),
      ap (shown_view submission.tjanster) (shown Field.services),
      shown Field.style,
      shown Field.«package»,
    )

checked_style :
    (s : Style) → map (λ v. v.checked) (style_choices (some s)) ≡ map (λ t. style_eq s t) all_styles
unfolding style_choices choice
checked_style s = refl

posted_styles :
    (s : Option Style)
    → map (λ v. to_option (Style.parse v.value)) (style_choices s) ≡ map some all_styles
unfolding style_choices choice Style.parse Style.named_by Style.label_sv Style.slug trim trim_start
    trim_end is_whitespace text_eq eq_ignore_ascii_case to_ascii_lower
posted_styles s = refl

checked_package :
    (p : Package)
    → map (λ v. v.checked) (package_choices (some p)) ≡ map (λ q. package_eq p q) all_packages
unfolding package_choices choice
checked_package p = refl

posted_packages :
    (p : Option Package)
    → map (λ v. to_option (Package.parse v.value)) (package_choices p) ≡ map some all_packages
unfolding package_choices choice Package.parse Package.named_by Package.label_sv Package.slug trim
    trim_start trim_end is_whitespace text_eq eq_ignore_ascii_case to_ascii_lower starts_with
posted_packages p = refl

-- The radios of a rejected form post what the core crate reads as the six styles and the two
-- packages, in their order; and where the submission's own choices can be read, exactly they are
-- checked.
from_rejected-choices :
    (submission : OrderSubmission) (errors : ValidationErrors) (now : ℕ) (s : Style) (p : Package)
    → Style.parse submission.stil ≡ ok s
    → Package.parse submission.paket ≡ ok p
    → (map (λ v. to_option (Style.parse v.value)) (from_rejected submission errors now).styles
        ≡ map some all_styles)
      × (map (λ v. v.checked) (from_rejected submission errors now).styles
          ≡ map (λ t. style_eq s t) all_styles)
      × (map (λ v. to_option (Package.parse v.value)) (from_rejected submission errors now).packages
          ≡ map some all_packages)
      × (map (λ v. v.checked) (from_rejected submission errors now).packages
          ≡ map (λ q. package_eq p q) all_packages)
unfolding from_rejected
from_rejected-choices submission errors now s p es ep = (
  posted_styles (to_option (Style.parse submission.stil)),
  ap (λ r. map (λ v. v.checked) (style_choices (to_option r))) es ∙ checked_style s,
  posted_packages (to_option (Package.parse submission.paket)),
  ap (λ r. map (λ v. v.checked) (package_choices (to_option r))) ep ∙ checked_package p,
)
