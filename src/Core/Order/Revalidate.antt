-- ===== src/Core/Order/Revalidate.antt =====
-- The fields of an accepted order, written out again as a submission, are accepted and give the
-- same order: what the studio reads from a stored row has passed the rules and still does.
use hemsidor.Prelude.{◌≡◌, ap, [], ◌∷◌, ok, map_err}
use hemsidor.Text.Split.{join}
use hemsidor.Core.Validation.{unknown_choice, company_max, city_max}
use hemsidor.Core.Style
use hemsidor.Core.Style.Laws as StyleLaws
use hemsidor.Core.Package
use hemsidor.Core.Package.Laws as PackageLaws
use hemsidor.Core.Order.{OrderForm, Order, check_style, check_package, validate}
use hemsidor.Core.Order.Fields.{required_text_again, validate_phone_again, validate_email_again}
use hemsidor.Core.Order.Services.{parse_services-join}
use hemsidor.Core.Order.Report.{validate_iff}

check_style-slug : (s : Style.Style) → check_style (Style.slug s) ≡ ok s
unfolding check_style
check_style-slug s = ap (map_err (λ _. unknown_choice)) (StyleLaws.parse-slug s)

check_package-slug : (p : Package.Package) → check_package (Package.slug p) ≡ ok p
unfolding check_package
check_package-slug p = ap (map_err (λ _. unknown_choice)) (PackageLaws.parse-slug p)

-- The order as text: the values as kept, the services one to a line, the choices by their slugs.
unfoldable pub written : Order → OrderForm
written o = record {
  company = o.company;
  city = o.city;
  phone = o.phone;
  email = o.email;
  services = join (b'\n' ∷ []) o.services;
  style = Style.slug o.style;
  «package» = Package.slug o.«package»;
}

-- Writing an accepted order out and validating it again gives the same order.
pub validate-written : (f : OrderForm) (o : Order) → validate f ≡ ok o → validate (written o) ≡ ok o
unfolding written
validate-written f o h =
    let a = (validate_iff f o).0 h in
    (validate_iff (written o) o).1 (record {
      company = required_text_again f.company company_max a.company;
      city = required_text_again f.city city_max a.city;
      phone = validate_phone_again f.phone a.phone;
      email = validate_email_again f.email a.email;
      services = parse_services-join f.services o.services a.services;
      style = check_style-slug o.style;
      «package» = check_package-slug o.«package»;
    })
