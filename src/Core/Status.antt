-- ===== src/Core/Status.antt =====
-- crates/hemsidor24-core/src/status.rs: where an order is in its life, and which moves are legal.
pub mod Laws
use hemsidor.Prelude.{
  ℕ, Bool, true, false, Option, List, [], ◌∷◌, ◌==◌, if◌then◌else◌, any, find, Result, ok, err,
}
use hemsidor.Text.{Text, codes, text_eq}

pub data OrderStatus : Type 0 where
  ny utkast_skickat godkand publicerad avbruten : OrderStatus

abbrev pub all_statuses : List OrderStatus
all_statuses = ny ∷ utkast_skickat ∷ godkand ∷ publicerad ∷ avbruten ∷ []

abbrev pub initial : OrderStatus
initial = ny

unfoldable pub slug : OrderStatus → Text
slug ny = codes "ny"
slug utkast_skickat = codes "utkast_skickat"
slug godkand = codes "godkand"
slug publicerad = codes "publicerad"
slug avbruten = codes "avbruten"

unfoldable pub from_slug : Text → Option OrderStatus
from_slug s = find (λ st. text_eq (slug st) s) all_statuses

unfoldable pub label_sv : OrderStatus → Text
label_sv ny = codes "Ny"
label_sv utkast_skickat = codes "Utkast skickat"
label_sv godkand = codes "Godkänd"
label_sv publicerad = codes "Publicerad"
label_sv avbruten = codes "Avbruten"

unfoldable pub is_terminal : OrderStatus → Bool
is_terminal publicerad = true
is_terminal avbruten = true
is_terminal _ = false

unfoldable pub next_allowed : OrderStatus → List OrderStatus
next_allowed ny = utkast_skickat ∷ avbruten ∷ []
next_allowed utkast_skickat = godkand ∷ avbruten ∷ []
next_allowed godkand = publicerad ∷ avbruten ∷ []
next_allowed publicerad = []
next_allowed avbruten = []

-- The derived `PartialEq`: the same variant.
abbrev pub variant : OrderStatus → ℕ
variant ny = 0
variant utkast_skickat = 1
variant godkand = 2
variant publicerad = 3
variant avbruten = 4

abbrev pub status_eq : OrderStatus → OrderStatus → Bool
status_eq s t = variant s == variant t

unfoldable pub can_transition_to : OrderStatus → OrderStatus → Bool
can_transition_to self next = any (λ s. status_eq s next) (next_allowed self)

pub record TransitionError : Type 0 where
  pub from : OrderStatus
  pub to : OrderStatus

unfoldable pub transition_to : OrderStatus → OrderStatus → Result TransitionError OrderStatus
transition_to self next =
    if can_transition_to self next then ok next else err (record { from = self; to = next })
