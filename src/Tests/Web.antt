-- ===== src/Tests/Web.antt =====
-- The theorems on the public page at concrete submissions.
use hemsidor.Prelude.{
  ◌↔◌, ◌⊎◌, ◌≤◌, ◌+◌, is_empty, ℕ, ◌-◌, ◌==◌, if◌then◌else◌, true, arith, List, ◌≢◌, ◌≡◌, refl,
  false, none, some, [], ◌∷◌, ok, err, map, any, ap, ◌++◌, ok_injective,
}
use hemsidor.Text.{
  codes, is_whitespace, is_ascii_digit, text_eq, eq_ignore_ascii_case, to_ascii_lower,
}
use hemsidor.Text.Decimal.{parse_unsigned}
use hemsidor.Text.Lines.{lines}
use hemsidor.Text.Match.{starts_with, ends_with, contains}
use hemsidor.Text.Split.{split_on}
use hemsidor.Text.Trim.{trim, trim_start, trim_end}
use hemsidor.Core.Validation.{Field, missing, ValidationErrors, collect, push, has_none}
use hemsidor.Core.Order.{
  validate, assemble, required_text, validate_phone, validate_email, parse_services, is_phone_char,
  email_parts_valid, check_style, check_package,
}
use hemsidor.Core.Style
use hemsidor.Core.Style.{Style, modern, all_styles, style_eq}
use hemsidor.Core.Package
use hemsidor.Core.Package.{Package, pro, all_packages, package_eq}
use hemsidor.Web.Spam.{is_spam, check, check_iff, u64_max, min_seconds_on_page}
use hemsidor.Web.Form.{OrderSubmission, to_core, from_rejected}
use hemsidor.Notify.Message.{Message}
use hemsidor.Web.Orders.{Backend, Service, RequestMeta, store}
use hemsidor.Web.Orders.Table.{IsBackend, inserted, with_notified}
use hemsidor.Tests.Memory.{next_key, next_key-fresh}
use hemsidor.Studio.Models.{Order}
use mathlib.Core.Path.{subst}
use hemsidor.Web.Router.{Libraries, Request, SiteState, post}
use hemsidor.Web.Router.Guarded.{Guarded}
use hemsidor.Web.Routes.{AppState, submit_order}
use hemsidor.Web.Routes.Laws.{thanks, Stored, submit_order-Stored}
use hemsidor.Web.Form.Laws.{sentence, from_rejected_lem}

check_iff_example : (is_spam (check (codes " ") (codes "17") 20) ≡ false) ↔ (
    (is_empty (trim (codes " ")) ≡ true)
    × ((parse_unsigned u64_max (trim (codes "17")) ≡ none)
        ⊎ ((n : ℕ) × (parse_unsigned u64_max (trim (codes "17")) ≡ some n)
            × (n + min_seconds_on_page ≤ 20))))
check_iff_example = check_iff (codes " ") (codes "17") 20

abbrev typed : OrderSubmission
typed = record {
  foretag = codes " ";
  ort = codes "Lund";
  tel = codes "046-12345";
  epost = codes "a@b.se";
  tjanster = codes "ost";
  stil = codes "modern";
  paket = codes "pro";
  webbplats = [];
  oppnad = codes "17";
}

abbrev typed_errors : ValidationErrors
typed_errors = record { errors = (Field.company, missing) ∷ [] }

typed_refused : validate (to_core typed) ≡ err typed_errors
unfolding to_core validate assemble collect required_text trim trim_end trim_start is_whitespace
    validate_phone is_ascii_digit is_phone_char validate_email email_parts_valid split_on
    starts_with ends_with contains parse_services check_package check_style Package.label_sv
    Package.named_by Package.parse Package.slug Style.label_sv Style.named_by Style.parse Style.slug
    has_none push lines eq_ignore_ascii_case text_eq to_ascii_lower
typed_refused = refl

modern_chosen : Style.parse typed.stil ≡ ok modern
unfolding Style.parse Style.named_by Style.label_sv Style.slug trim trim_start trim_end
    is_whitespace text_eq eq_ignore_ascii_case to_ascii_lower
modern_chosen = refl

pro_chosen : Package.parse typed.paket ≡ ok pro
unfolding Package.parse Package.named_by Package.label_sv Package.slug trim trim_start trim_end
    is_whitespace text_eq eq_ignore_ascii_case to_ascii_lower starts_with
pro_chosen = refl

from_rejected_lem_example :
    ((from_rejected typed typed_errors 20).company
      ≡ record { value = typed.foretag; error = sentence typed Field.company })
    × ((from_rejected typed typed_errors 20).city
        ≡ record { value = typed.ort; error = sentence typed Field.city })
    × ((from_rejected typed typed_errors 20).phone
        ≡ record { value = typed.tel; error = sentence typed Field.phone })
    × ((from_rejected typed typed_errors 20).email
        ≡ record { value = typed.epost; error = sentence typed Field.email })
    × ((from_rejected typed typed_errors 20).services
        ≡ record { value = typed.tjanster; error = sentence typed Field.services })
    × ((from_rejected typed typed_errors 20).style_error ≡ sentence typed Field.style)
    × ((from_rejected typed typed_errors 20).package_error ≡ sentence typed Field.«package»)
from_rejected_lem_example = from_rejected_lem typed typed_errors 20 typed_refused

-- A database that is a list of rows, at the moment 9, and a postbox that is a list of messages.
abbrev ledger : Backend
ledger = record {
  Db = List Order;
  Post = List Message;
  insert_order = λ row db. (
    ok (next_key (map (λ r. r.id) db)),
    db ++ inserted row (next_key (map (λ r. r.id) db)) 9 ∷ [],
  );
  set_notified = λ id db. (ok tt, map (with_notified 9 id) db);
  sha256_hex = λ t. t;
  send = λ message post. (ok tt, message ∷ post);
}

key_free :
    (k : ℕ) (os : List Order)
    → any (λ m. m == k) (map (λ r. r.id) os) ≡ false
    → any (λ r. r.id == k) os ≡ false
key_free k [] h = refl
key_free k (o ∷ os) h = ground (arith, key_free k os, h)

ledger-IsBackend : IsBackend ledger
ledger-IsBackend = record {
  orders = λ db. db;
  now = λ db. 9;
  insert_ok = λ row db id e.
      ap (λ (n : ℕ). db ++ inserted row n 9 ∷ [])
        (ok_injective (next_key (map (λ r. r.id) db)) id e);
  insert_key = λ row db id e.
      subst (λ k. any (λ r. r.id == k) db ≡ false)
        (ok_injective (next_key (map (λ r. r.id) db)) id e)
        (key_free (next_key (map (λ r. r.id) db)) db
          (next_key-fresh (map (λ r. r.id) db) (next_key (map (λ r. r.id) db)) (omega arith)));
  insert_err = λ row db why e. absurd (ground arith);
  notified_ok = λ id db e. refl;
  notified_err = λ id db why e. absurd (ground arith);
}

abbrev settings : AppState
settings = record {
  notify_to = codes "s@h.se";
  notify_from = codes "h@h.se";
  ip_hash_salt = codes "salt";
}

abbrev from_here : RequestMeta
from_here = record { ip = some (codes "::1"); user_agent = none }

abbrev empty_service : Service ledger
empty_service = record { db = []; post = [] }

abbrev complete : OrderSubmission
complete = record {
  foretag = codes "Bageriet";
  ort = codes "Lund";
  tel = codes "046-12345";
  epost = codes "a@b.se";
  tjanster = codes "ost";
  stil = codes "modern";
  paket = codes "pro";
  webbplats = [];
  oppnad = codes "17";
}

complete_clean : is_spam (check complete.webbplats complete.oppnad 20) ≡ false
unfolding is_spam check trim trim_end trim_start parse_unsigned is_whitespace
complete_clean = refl

complete_valid : (submit_order ledger settings complete from_here 20 empty_service).0 ≡ thanks 20
unfolding submit_order is_spam check store to_core validate assemble collect required_text trim
    trim_end trim_start is_whitespace validate_phone is_ascii_digit is_phone_char validate_email
    email_parts_valid split_on starts_with ends_with contains parse_services check_package
    check_style Package.label_sv Package.named_by Package.parse Package.slug Style.label_sv
    Style.named_by Style.parse Style.slug has_none push lines eq_ignore_ascii_case text_eq
    to_ascii_lower parse_unsigned
complete_valid = refl

submit_order-Stored_example :
    Stored ledger ledger-IsBackend settings complete from_here empty_service
      (submit_order ledger settings complete from_here 20 empty_service).1
submit_order-Stored_example =
    submit_order-Stored ledger ledger-IsBackend settings complete from_here 20 empty_service
      complete_clean complete_valid

typed_answer : (submit_order ledger settings typed from_here 20 empty_service).0 ≢ thanks 20
unfolding submit_order is_spam check store to_core validate assemble collect required_text trim
    trim_end trim_start is_whitespace validate_phone is_ascii_digit is_phone_char validate_email
    email_parts_valid split_on starts_with ends_with contains parse_services check_package
    check_style Package.label_sv Package.named_by Package.parse Package.slug Style.label_sv
    Style.named_by Style.parse Style.slug has_none push lines eq_ignore_ascii_case text_eq
    to_ascii_lower parse_unsigned
typed_answer h = absurd (ground arith)

-- Five orders for everybody together.
abbrev doorkeeper : Libraries
doorkeeper = record {
  Limiter = ℕ;
  finish = λ per_second burst_size. some burst_size;
  admit = λ r left. if left == 0 then (false, 0) else (true, left - 1);
  too_many = λ r. record { status = 429; body = []; cache_control = none };
  serve_dir = λ r. record { status = 404; body = []; cache_control = none };
  unmatched = λ r. record { status = 404; body = []; cache_control = none };
}

abbrev ordering : Request
ordering = record {
  method = post;
  path = codes "/bestall";
  peer = codes "1.2.3.4";
  user_agent = none;
  forwarded_for = none;
  form = some complete;
}

abbrev open_site : SiteState ledger doorkeeper
open_site = record { service = empty_service; limiter = 5 }
