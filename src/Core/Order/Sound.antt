-- ===== src/Core/Order/Sound.antt =====
-- What holds of every accepted order: the bounds that the database checks too
-- (migrations/0001_create_orders.sql), and the shape of each value.
use hemsidor.Prelude.{
  ℕ, ◌≤◌, ◌≡◌, sym, arith, false, true, is_empty, length, ltb, any, all, filter, All, ok,
  length-filter-le,
}
use mathlib.Core.Path.{subst}
use hemsidor.Text.{Text, is_ascii_digit}
use hemsidor.Text.Trim.{trim, IsTrimmed, trim-IsTrimmed}
use hemsidor.Core.Scope.{max_services}
use hemsidor.Core.Validation.{
  company_max, city_max, phone_max, phone_min_digits, email_max, service_max,
}
use hemsidor.Core.Order.{OrderForm, Order, is_phone_char, required_text, validate}
use hemsidor.Core.Order.Fields.{
  IsEmail, IsEmail-filled, required_text_iff, validate_phone_iff, validate_email_iff,
}
use hemsidor.Core.Order.Services.{IsService, kept-All, parse_services_iff}
use hemsidor.Core.Order.Report.{validate_iff}

-- A trimmed text of between one character and `max`.
pub record IsFilled (max : ℕ) (t : Text) : Type 0 where
  pub trimmed : IsTrimmed t
  pub non_blank : 1 ≤ length t
  pub fits : length t ≤ max

pub record IsSound (o : Order) : Type 0 where
  pub company : IsFilled company_max o.company
  pub city : IsFilled city_max o.city
  pub phone : IsFilled phone_max o.phone
  pub phone_digits : phone_min_digits ≤ length (filter is_ascii_digit o.phone)
  pub phone_shape : all is_phone_char o.phone ≡ true
  pub email : IsFilled email_max o.email
  pub email_shape : IsEmail o.email
  pub some_service : 1 ≤ length o.services
  pub few_services : length o.services ≤ max_services
  pub services : All IsService o.services
  pub short_services : any (λ line. ltb service_max (length line)) o.services ≡ false

filled_length : (t : Text) → is_empty t ≡ false → 1 ≤ length t
filled_length t h = ground arith

required_text-IsFilled :
    (raw : Text) (max : ℕ) {t : Text} → required_text raw max ≡ ok t → IsFilled max t
required_text-IsFilled raw max {t} h =
    let (e, filled, fits) = (required_text_iff raw max t).0 h in
    subst (IsFilled max) (sym e) (record {
      trimmed = trim-IsTrimmed raw;
      non_blank = filled_length (trim raw) filled;
      fits = fits;
    })

digits_filled : (t : Text) → phone_min_digits ≤ length (filter is_ascii_digit t) → 1 ≤ length t
digits_filled t h = omega (arith, length-filter-le is_ascii_digit t)

email_filled : (t : Text) → IsEmail t → 1 ≤ length t
email_filled t e = filled_length t (IsEmail-filled t e)

-- Every order that validation accepts is sound: each text trimmed, filled and within its limit,
-- the phone number with enough digits and phone characters only, the address of the shape of an
-- address, and one to six services.
pub validate-IsSound : (f : OrderForm) (o : Order) → validate f ≡ ok o → IsSound o
validate-IsSound f o h =
    let a = (validate_iff f o).0 h in
    let (pe, pfits, digits, shape) = (validate_phone_iff f.phone o.phone).0 a.phone in
    let (ee, efits, address) = (validate_email_iff f.email o.email).0 a.email in
    let (se, low, high, short) = (parse_services_iff f.services o.services).0 a.services in
    record {
      company = required_text-IsFilled f.company company_max a.company;
      city = required_text-IsFilled f.city city_max a.city;
      phone = record {
        trimmed = subst IsTrimmed (sym pe) (trim-IsTrimmed f.phone);
        non_blank = digits_filled o.phone (rw pe digits);
        fits = rw pe pfits;
      };
      phone_digits = rw pe digits;
      phone_shape = rw pe shape;
      email = record {
        trimmed = subst IsTrimmed (sym ee) (trim-IsTrimmed f.email);
        non_blank = email_filled o.email (subst IsEmail (sym ee) address);
        fits = rw ee efits;
      };
      email_shape = subst IsEmail (sym ee) address;
      some_service = rw se low;
      few_services = rw se high;
      services = subst (All IsService) (sym se) (kept-All f.services);
      short_services = rw se short;
    }
