-- ===== src/Core/Validation.antt =====
-- crates/hemsidor24-core/src/validation.rs: what can be wrong with a submission, and where.
-- `Display` texts, which are for logs, are left out.
pub mod Laws
use hemsidor.Prelude.{
  ℕ, Bool, true, false, ◌≡◌, refl, Option, none, some, List, [], ◌∷◌, ◌++◌, ◌==◌, if◌then◌else◌,
  length, is_empty, find, Result, ok, err,
}
use hemsidor.Text.{Text, codes}
use mathlib.Core.Option

-- mod limits
abbrev pub company_max : ℕ
company_max = 120

abbrev pub city_max : ℕ
city_max = 80

abbrev pub phone_max : ℕ
phone_max = 32

abbrev pub phone_min_digits : ℕ
phone_min_digits = 6

abbrev pub email_max : ℕ
email_max = 254

abbrev pub service_max : ℕ
service_max = 200

pub data Field : Type 0 where
  company city phone email services style «package» : Field

unfoldable pub form_name : Field → Text
form_name Field.company = codes "foretag"
form_name Field.city = codes "ort"
form_name Field.phone = codes "tel"
form_name Field.email = codes "epost"
form_name Field.services = codes "tjanster"
form_name Field.style = codes "stil"
form_name Field.«package» = codes "paket"

-- The derived `PartialEq`: the same variant.
abbrev pub variant : Field → ℕ
variant Field.company = 0
variant Field.city = 1
variant Field.phone = 2
variant Field.email = 3
variant Field.services = 4
variant Field.style = 5
variant Field.«package» = 6

abbrev pub field_eq : Field → Field → Bool
field_eq f g = variant f == variant g

pub data FieldError : Type 0 where
  missing : FieldError
  too_long : (max : ℕ) → FieldError
  invalid_email invalid_phone : FieldError
  too_many_services : (max got : ℕ) → FieldError
  unknown_choice : FieldError

pub record ValidationErrors : Type 0 where
  pub errors : List (Field × FieldError)

abbrev pub new : ValidationErrors
new = record { errors = [] }

unfoldable pub push : Field → FieldError → ValidationErrors → ValidationErrors
push field error self = record { errors = self.errors ++ (field, error) ∷ [] }

-- The value of a success, and the errors with that of a failure recorded.
unfoldable pub collect :
    {T : Type 0} → Field → Result FieldError T → ValidationErrors → Option T × ValidationErrors
unfolding push
collect field (ok value) self = (some value, self)
collect field (err error) self = (none, push field error self)

unfoldable pub has_none : ValidationErrors → Bool
has_none self = is_empty self.errors

unfoldable pub len : ValidationErrors → ℕ
len self = length self.errors

unfoldable pub for_field : Field → ValidationErrors → Option FieldError
for_field field self =
    Option.map (λ entry. entry.1) (find (λ entry. field_eq entry.0 field) self.errors)

unfoldable pub into_result : {T : Type 0} → T → ValidationErrors → Result ValidationErrors T
unfolding has_none
into_result value self = if has_none self then ok value else err self

pub data ParseChoiceError : Type 0 where
  style «package» : ParseChoiceError
