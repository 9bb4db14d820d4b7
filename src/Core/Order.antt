-- ===== src/Core/Order.antt =====
-- crates/hemsidor24-core/src/order.rs: a raw submission, and what a valid one becomes.
pub mod Fields
pub mod Services
pub mod Report
pub mod Revalidate
pub mod Sound
use hemsidor.Prelude.{
  ℕ, Bool, true, false, not, ◌&&◌, ◌||◌, Option, none, some, List, [], ◌∷◌, ◌==◌, ltb,
  if◌then◌else◌, length, is_empty, any, all, filter, map, Result, ok, err, map_err,
}
use hemsidor.Text.{Text, codes, is_whitespace, is_ascii_digit}
use hemsidor.Text.Trim.{trim}
use hemsidor.Text.Match.{starts_with, ends_with, contains_char, contains}
use hemsidor.Text.Split.{split_on}
use hemsidor.Text.Lines.{lines}
use hemsidor.Core.Scope.{max_services}
use hemsidor.Core.Validation.{
  Field, FieldError, missing, too_long, invalid_email, invalid_phone, too_many_services,
  unknown_choice, ValidationErrors, new, collect, has_none, company_max, city_max, phone_max,
  phone_min_digits, email_max, service_max,
}
use hemsidor.Core.Package
use hemsidor.Core.Package.{Package}
use hemsidor.Core.Style
use hemsidor.Core.Style.{Style}

pub record OrderForm : Type 0 where
  pub company : Text
  pub city : Text
  pub phone : Text
  pub email : Text
  pub services : Text
  pub style : Text
  pub «package» : Text

pub record Order : Type 0 where
  pub company : Text
  pub city : Text
  pub phone : Text
  pub email : Text
  pub services : List Text
  pub style : Style
  pub «package» : Package

-- `Services::parse`; `Services` is the list itself.
unfoldable pub parse_services : Text → Result FieldError (List Text)
parse_services raw =
    let ls = filter (λ line. not (is_empty line)) (map trim (lines raw)) in
    if is_empty ls
    then err missing
    else if ltb max_services (length ls)
    then err (too_many_services max_services (length ls))
    else if any (λ line. ltb service_max (length line)) ls
    then err (too_long service_max)
    else ok ls

unfoldable pub required_text : Text → ℕ → Result FieldError Text
required_text raw max =
    let t = trim raw in
    if is_empty t then err missing else if ltb max (length t) then err (too_long max) else ok t

-- `+ - space ( ) . /`
unfoldable pub is_phone_char : ℕ → Bool
is_phone_char c =
    is_ascii_digit c
    || c == b'+'
    || c == b'-'
    || c == b' '
    || c == b'('
    || c == b')'
    || c == b'.'
    || c == b'/'

unfoldable pub validate_phone : Text → Result FieldError Text
validate_phone raw =
    let t = trim raw in
    if is_empty t
    then err missing
    else if ltb phone_max (length t)
    then err (too_long phone_max)
    else if ltb (length (filter is_ascii_digit t)) phone_min_digits || not (all is_phone_char t)
    then err invalid_phone
    else ok t

-- The `match` on the first three parts around `@`, for the trimmed text `t`.
unfoldable pub email_parts_valid : Text → List Text → Bool
email_parts_valid t (local ∷ domain ∷ []) =
    not (is_empty local)
    && contains_char domain b'.'
    && not (starts_with domain (b'.' ∷ []))
    && not (ends_with domain b'.')
    && not (contains domain (codes ".."))
    && not (any is_whitespace t)
email_parts_valid t _ = false

unfoldable pub validate_email : Text → Result FieldError Text
validate_email raw =
    let t = trim raw in
    if is_empty t
    then err missing
    else if ltb email_max (length t)
    then err (too_long email_max)
    else if email_parts_valid t (split_on b'@' t)
    then ok t
    else err invalid_email

unfoldable pub check_style : Text → Result FieldError Style
check_style t = map_err (λ _. unknown_choice) (Style.parse t)

unfoldable pub check_package : Text → Result FieldError Package
check_package t = map_err (λ _. unknown_choice) (Package.parse t)

-- The final `match`.
unfoldable pub assemble :
    Option Text
    → Option Text
    → Option Text
    → Option Text
    → Option (List Text)
    → Option Style
    → Option Package
    → ValidationErrors
    → Result ValidationErrors Order
assemble (some a) (some b) (some c) (some d) (some e) (some f) (some g) errors =
    if has_none errors
    then ok (record {
      company = a;
      city = b;
      phone = c;
      email = d;
      services = e;
      style = f;
      «package» = g;
    })
    else err errors
assemble _ _ _ _ _ _ _ errors = err errors

-- `OrderForm::validate`
unfoldable pub validate : OrderForm → Result ValidationErrors Order
validate self =
    let (company, e1) = collect Field.company (required_text self.company company_max) new in
    let (city, e2) = collect Field.city (required_text self.city city_max) e1 in
    let (phone, e3) = collect Field.phone (validate_phone self.phone) e2 in
    let (email, e4) = collect Field.email (validate_email self.email) e3 in
    let (services, e5) = collect Field.services (parse_services self.services) e4 in
    let (style, e6) = collect Field.style (check_style self.style) e5 in
    let (package_, e7) = collect Field.«package» (check_package self.«package») e6 in
    assemble company city phone email services style package_ e7
