-- ===== src/Core/Order/Report.antt =====
-- A submission is accepted exactly when each field's check accepts it, and otherwise every
-- failing check is reported, in the order of the fields.
use hemsidor.Prelude.{
  Bool, true, false, ◌≡◌, refl, ◌↔◌, Option, none, some, List, [], ◌∷◌, ◌++◌, arith, ap, ◌∙◌, sym,
  Result, ok, err, find, if◌then◌else◌, to_option, any, Bool-cases, inl, inr,
}
use mathlib.Core.Option
use mathlib.Core.List.{append_assoc, append-nil}
use hemsidor.Text.{Text}
use hemsidor.Core.Validation.{
  Field, FieldError, field_eq, ValidationErrors, new, push, collect, has_none, for_field,
  company_max, city_max,
}
use hemsidor.Core.Validation.Laws.{failure, field_eq_iff}
use hemsidor.Core.Style.{Style}
use hemsidor.Core.Package.{Package}
use hemsidor.Core.Order.{
  OrderForm, Order, required_text, validate_phone, validate_email, parse_services, check_style,
  check_package, assemble, validate,
}

-- What each field's check says of a submission.
abbrev pub failure_of : OrderForm → Field → Option FieldError
failure_of f Field.company = failure (required_text f.company company_max)
failure_of f Field.city = failure (required_text f.city city_max)
failure_of f Field.phone = failure (validate_phone f.phone)
failure_of f Field.email = failure (validate_email f.email)
failure_of f Field.services = failure (parse_services f.services)
failure_of f Field.style = failure (check_style f.style)
failure_of f Field.«package» = failure (check_package f.«package»)

-- Every failing check with its field, in the order of the fields.
abbrev pub reported : Field → Option FieldError → List (Field × FieldError)
reported field none = []
reported field (some error) = (field, error) ∷ []

abbrev pub all_fields : List Field
all_fields =
    Field.company ∷ Field.city ∷ Field.phone ∷ Field.email ∷ Field.services ∷ Field.style
    ∷ Field.«package» ∷ []

abbrev pub reports : (Field → Option FieldError) → List Field → List (Field × FieldError)
reports o [] = []
reports o (k ∷ ks) = reported k (o k) ++ reports o ks

abbrev pub problems : OrderForm → List (Field × FieldError)
problems f = reports (failure_of f) all_fields

-- Every check accepts, with the values of the order.
pub record Accepts (f : OrderForm) (o : Order) : Type 0 where
  pub company : required_text f.company company_max ≡ ok o.company
  pub city : required_text f.city city_max ≡ ok o.city
  pub phone : validate_phone f.phone ≡ ok o.phone
  pub email : validate_email f.email ≡ ok o.email
  pub services : parse_services f.services ≡ ok o.services
  pub style : check_style f.style ≡ ok o.style
  pub «package» : check_package f.«package» ≡ ok o.«package»

collect-errors :
    {T : Type 0} (g : Field) (r : Result FieldError T) (e : ValidationErrors)
    → (collect g r e).1.errors ≡ e.errors ++ reported g (failure r)
unfolding collect push
collect-errors g (ok v) e = sym (append-nil e.errors)
collect-errors g (err x) e = refl

collect-value :
    {T : Type 0} (g : Field) (r : Result FieldError T) (e : ValidationErrors)
    → (collect g r e).0 ≡ to_option r
unfolding collect
collect-value g (ok v) e = refl
collect-value g (err x) e = refl

-- `validate` over the results of the seven checks.
module _ (r1 r2 r3 r4 : Result FieldError Text) (r5 : Result FieldError (List Text))
    (r6 : Result FieldError Style) (r7 : Result FieldError Package) where
  abbrev after : ValidationErrors
  after =
      (collect Field.«package» r7
        (collect Field.style r6
          (collect Field.services r5
            (collect Field.email r4
              (collect Field.phone r3
                (collect Field.city r2 (collect Field.company r1 new).1).1).1).1).1).1).1

  abbrev gathered : Result ValidationErrors Order
  gathered =
      assemble (to_option r1) (to_option r2) (to_option r3) (to_option r4) (to_option r5)
        (to_option r6) (to_option r7) after

  after-errors :
      after.errors
      ≡ reported Field.company (failure r1)
        ++ (reported Field.city (failure r2)
            ++ (reported Field.phone (failure r3)
                ++ (reported Field.email (failure r4)
                    ++ (reported Field.services (failure r5)
                        ++ (reported Field.style (failure r6)
                            ++ (reported Field.«package» (failure r7) ++ []))))))
  after-errors = simp (collect-errors, append_assoc, append-nil)

gathered_inv :
    (r1 r2 r3 r4 : Result FieldError Text) (r5 : Result FieldError (List Text))
    (r6 : Result FieldError Style) (r7 : Result FieldError Package) (o : Order)
    → gathered r1 r2 r3 r4 r5 r6 r7 ≡ ok o
    → (r1 ≡ ok o.company)
      × (r2 ≡ ok o.city)
      × (r3 ≡ ok o.phone)
      × (r4 ≡ ok o.email)
      × (r5 ≡ ok o.services)
      × (r6 ≡ ok o.style)
      × (r7 ≡ ok o.«package»)
unfolding assemble collect has_none
gathered_inv (ok a) (ok b) (ok c) (ok d) (ok e) (ok f) (ok g) o h = ground arith
gathered_inv _ _ _ _ _ _ _ o h = cc

gathered-err :
    (r1 r2 r3 r4 : Result FieldError Text) (r5 : Result FieldError (List Text))
    (r6 : Result FieldError Style) (r7 : Result FieldError Package) {e : ValidationErrors}
    → gathered r1 r2 r3 r4 r5 r6 r7 ≡ err e
    → after r1 r2 r3 r4 r5 r6 r7 ≡ e
unfolding assemble
gathered-err r1 r2 r3 r4 r5 r6 r7 h = ground arith

validate-gathered :
    (f : OrderForm)
    → validate f
      ≡ gathered
          (required_text f.company company_max)
          (required_text f.city city_max)
          (validate_phone f.phone)
          (validate_email f.email)
          (parse_services f.services)
          (check_style f.style)
          (check_package f.«package»)
unfolding validate
validate-gathered f = simp collect-value

Accepts-of_validate : (f : OrderForm) (o : Order) → validate f ≡ ok o → Accepts f o
Accepts-of_validate f o h =
    let (a, b, c, d, e, s, p) =
      gathered_inv (required_text f.company company_max) (required_text f.city city_max)
        (validate_phone f.phone) (validate_email f.email) (parse_services f.services)
        (check_style f.style) (check_package f.«package») o (sym (validate-gathered f) ∙ h) in
    record { company = a; city = b; phone = c; email = d; services = e; style = s; «package» = p }

validate_of_Accepts : (f : OrderForm) (o : Order) → Accepts f o → validate f ≡ ok o
unfolding assemble collect has_none
validate_of_Accepts f o a =
    validate-gathered f ∙ rw (a.company, a.city, a.phone, a.email, a.services, a.style, a.«package»)

-- A submission becomes an order exactly when each field's own check accepts it, and the order
-- holds the values that the checks give.
pub validate_iff : (f : OrderForm) (o : Order) → (validate f ≡ ok o) ↔ Accepts f o
validate_iff f o = (Accepts-of_validate f o, validate_of_Accepts f o)

-- Where validation refuses a submission, the errors are those of every failing check with its
-- field, in the order of the fields, and nothing else.
pub validate-err :
    (f : OrderForm) {e : ValidationErrors} → validate f ≡ err e → e.errors ≡ problems f
validate-err f {e} h =
    ap (λ x. x.errors)
      (sym (
        gathered-err (required_text f.company company_max) (required_text f.city city_max)
          (validate_phone f.phone) (validate_email f.email) (parse_services f.services)
          (check_style f.style) (check_package f.«package») (sym (validate-gathered f) ∙ h)))
    ∙ after-errors _ _ _ _ _ _ _

-- The search of `for_field`.
abbrev search_field : Field → List (Field × FieldError) → Option FieldError
search_field g entries = Option.map (λ entry. entry.1) (find (λ entry. field_eq entry.0 g) entries)

search-reported_self :
    (g : Field) (o : Option FieldError) (rest : List (Field × FieldError))
    → search_field g rest ≡ none
    → search_field g (reported g o ++ rest) ≡ o
search-reported_self g none rest h = h
search-reported_self g (some x) rest h = ground arith

search-reported_other :
    (g k : Field) (o : Option FieldError) (rest : List (Field × FieldError))
    → field_eq k g ≡ false
    → search_field g (reported k o ++ rest) ≡ search_field g rest
search-reported_other g k none rest h = refl
search-reported_other g k (some x) rest h = ground arith

search_same :
    (g k : Field) (here there : Option FieldError) (rest : List (Field × FieldError)) (later : Bool)
    → field_eq k g ≡ true
    → here ≡ there
    → search_field g rest ≡ (if later then there else none)
    → search_field g (reported k here ++ rest) ≡ there
search_same g k none there rest true same e h = h
search_same g k none there rest false same e h = h ∙ e
search_same g k (some x) there rest later same e h = ground arith

search-reports :
    (g : Field) (o : Field → Option FieldError) (ks : List Field)
    → search_field g (reports o ks) ≡ (if any (λ k. field_eq k g) ks then o g else none)
search-reports g o [] = refl
search-reports g o (k ∷ ks) = elim (Bool-cases (field_eq k g)) [
  | inl same ↦ rw same (
      search_same g k (o k) (o g) (reports o ks) (any (λ j. field_eq j g) ks) same
        (ap o (field_eq_iff k g same)) (search-reports g o ks))
  | inr other ↦
      search-reported_other g k (o k) (reports o ks) other ∙ search-reports g o ks ∙ rw other
]

every_field :
    (g : Field) (o : Option FieldError)
    → (if any (λ k. field_eq k g) all_fields then o else none) ≡ o
every_field Field.company o = refl
every_field _ o = refl

-- Where validation refuses a submission, looking up a field in the errors gives the error of that
-- field's own check, and none where the check passed.
pub for_field-validate :
    (f : OrderForm) {e : ValidationErrors} (g : Field)
    → validate f ≡ err e
    → for_field g e ≡ failure_of f g
unfolding for_field
for_field-validate f {e} g h =
    ap (search_field g) (validate-err f h)
    ∙ search-reports g (failure_of f) all_fields
    ∙ every_field g (failure_of f g)
