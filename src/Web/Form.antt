-- ===== src/Web/Form.antt =====
-- crates/hemsidor24-web/src/form.rs: the order form as the page shows it. The clock is an argument.
pub mod Laws
use hemsidor.Prelude.{
  ℕ, ◌+◌, Bool, true, false, ◌≡◌, refl, Option, none, some, List, [], ◌∷◌, map, ok, err, to_option,
  ◌==◌, if◌then◌else◌,
}
use mathlib.Core.Option
use hemsidor.Text.{Text, codes, concat}
use hemsidor.Text.Decimal.{decimal}
use hemsidor.Core.Validation.{
  Field, FieldError, missing, too_long, invalid_email, invalid_phone, too_many_services,
  unknown_choice, ValidationErrors, for_field,
}
use hemsidor.Core.Order.{OrderForm}
use hemsidor.Core.Style
use hemsidor.Core.Style.{Style, all_styles, style_eq}
use hemsidor.Core.Package
use hemsidor.Core.Package.{Package, all_packages, package_eq}

pub record OrderSubmission : Type 0 where
  pub foretag : Text
  pub ort : Text
  pub tel : Text
  pub epost : Text
  pub tjanster : Text
  pub stil : Text
  pub paket : Text
  pub webbplats : Text
  pub oppnad : Text

unfoldable pub to_core : OrderSubmission → OrderForm
to_core self = record {
  company = self.foretag;
  city = self.ort;
  phone = self.tel;
  email = self.epost;
  services = self.tjanster;
  style = self.stil;
  «package» = self.paket;
}

pub record FieldView : Type 0 where
  pub value : Text
  pub error : Option Text

pub record ChoiceView : Type 0 where
  pub value : Text
  pub name : Text
  pub desc : Text
  pub checked : Bool
  pub border : Text
  pub bg : Text

-- `ChoiceView::new`
unfoldable pub choice : Text → Text → Bool → ChoiceView
choice value desc checked = record {
  value = value;
  name = value;
  desc = desc;
  checked = checked;
  border = if checked then codes "#1C4F9C" else codes "#C3CBD8";
  bg = if checked then codes "#EDF2FA" else codes "#fff";
}

pub record FormView : Type 0 where
  pub company : FieldView
  pub city : FieldView
  pub phone : FieldView
  pub email : FieldView
  pub services : FieldView
  pub styles : List ChoiceView
  pub packages : List ChoiceView
  pub style_error : Option Text
  pub package_error : Option Text
  pub honeypot : Text
  pub opened_at : ℕ

abbrev pub style_descriptions : List Text
style_descriptions =
    codes "Lugn och seriös"
    ∷ codes "Rent och enkelt"
    ∷ codes "Färg och kontrast"
    ∷ codes "Ungt och lätt"
    ∷ codes "För klubbar och föreningar"
    ∷ codes "Vi väljer åt er"
    ∷ []

abbrev pub package_labels : List (Text × Text)
package_labels =
    (codes "Start — 2 490 kr", codes "Vi sköter ändringarna åt er")
    ∷ (codes "Pro — 4 490 kr", codes "Ni ändrar innehållet själva")
    ∷ []

-- `message_sv`
unfoldable pub message_sv : FieldError → Text
message_sv missing = codes "Fyll i det här fältet."
message_sv (too_long max) = concat (codes "Får vara högst " ∷ decimal max ∷ codes " tecken." ∷ [])
message_sv invalid_email = codes "Kontrollera e-postadressen."
message_sv invalid_phone = codes "Kontrollera telefonnumret."
message_sv (too_many_services max got) = concat (
    codes "Vi bygger en sida med upp till "
    ∷ decimal max
    ∷ codes " tjänster. Du har skrivit "
    ∷ decimal got
    ∷ codes "."
    ∷ [])
message_sv unknown_choice = codes "Välj ett av alternativen."

module _ {A B : Type 0} where
  abbrev pub zip : List A → List B → List (A × B)
  zip [] bs = []
  zip (a ∷ rest) [] = []
  zip (a ∷ rest) (b ∷ bs) = (a, b) ∷ zip rest bs

abbrev pub enumerate_from : {A : Type 0} → ℕ → List A → List (ℕ × A)
enumerate_from i [] = []
enumerate_from i (a ∷ rest) = (i, a) ∷ enumerate_from (i + 1) rest

abbrev pub map_or : {A : Type 0} → Bool → (A → Bool) → Option A → Bool
map_or default f none = default
map_or default f (some a) = f a

-- The six style radios, with the one that was chosen checked, or the first.
unfoldable pub style_choices : Option Style → List ChoiceView
style_choices chosen =
    map
      (λ row.
        choice (Style.label_sv row.1.0) row.1.1
          (map_or (row.0 == 0) (λ c. style_eq c row.1.0) chosen))
      (enumerate_from 0 (zip all_styles style_descriptions))

-- The two package radios.
unfoldable pub package_choices : Option Package → List ChoiceView
package_choices chosen =
    map (λ row. choice row.1.0.0 row.1.0.1 (map_or (row.0 == 0) (λ c. package_eq c row.1.1) chosen))
      (enumerate_from 0 (zip package_labels all_packages))

-- `FormView::default`
unfoldable pub blank_form : ℕ → FormView
unfolding style_choices package_choices
blank_form now_unix = record {
  company = record { value = []; error = none };
  city = record { value = []; error = none };
  phone = record { value = []; error = none };
  email = record { value = []; error = none };
  services = record { value = []; error = none };
  styles = style_choices none;
  packages = package_choices none;
  style_error = none;
  package_error = none;
  honeypot = [];
  opened_at = now_unix;
}

-- `FormView::from_rejected`
unfoldable pub from_rejected : OrderSubmission → ValidationErrors → ℕ → FormView
from_rejected submission errors now_unix = record {
  company = record {
    value = submission.foretag;
    error = Option.map message_sv (for_field Field.company errors);
  };
  city = record {
    value = submission.ort;
    error = Option.map message_sv (for_field Field.city errors);
  };
  phone = record {
    value = submission.tel;
    error = Option.map message_sv (for_field Field.phone errors);
  };
  email = record {
    value = submission.epost;
    error = Option.map message_sv (for_field Field.email errors);
  };
  services = record {
    value = submission.tjanster;
    error = Option.map message_sv (for_field Field.services errors);
  };
  styles = style_choices (to_option (Style.parse submission.stil));
  packages = package_choices (to_option (Package.parse submission.paket));
  style_error = Option.map message_sv (for_field Field.style errors);
  package_error = Option.map message_sv (for_field Field.«package» errors);
  honeypot = [];
  opened_at = now_unix;
}
