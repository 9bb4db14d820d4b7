-- ===== src/Core/Status/Laws.antt =====
-- The life of an order: slugs read back, and the moves form the diagram of the documentation.
use hemsidor.Prelude.{
  ℕ, ◌+◌, ◌≤◌, ◌<◌, true, false, ◌≡◌, refl, ◌↔◌, inl, inr, some, List, [], ◌∷◌, arith, find_passes,
  length, Result, ok, err, Result-cases,
}
use hemsidor.Text.{Text, text_eq, text_eq_iff}
use hemsidor.Core.Status.{
  OrderStatus, ny, utkast_skickat, godkand, publicerad, avbruten, all_statuses, initial, slug,
  from_slug, is_terminal, next_allowed, can_transition_to, TransitionError, transition_to,
}

pub from_slug-slug : (s : OrderStatus) → from_slug (slug s) ≡ some s
unfolding from_slug slug text_eq
from_slug-slug ny = refl
from_slug-slug _ = refl

slug_of_from_slug : (t : Text) (s : OrderStatus) → from_slug t ≡ some s → slug s ≡ t
unfolding from_slug
slug_of_from_slug t s h =
    (text_eq_iff (slug s) t).0 (find_passes (λ st. text_eq (slug st) t) all_statuses h)

-- A stored text reads back as a status exactly when it is that status's slug.
from_slug_iff : (t : Text) (s : OrderStatus) → (from_slug t ≡ some s) ↔ (slug s ≡ t)
from_slug_iff t s = (slug_of_from_slug t s, λ e. rw (← e) (from_slug-slug s))

-- The arrows of the documentation's diagram.
pub data Arrow : OrderStatus → OrderStatus → Type 0 where
  propose : Arrow ny utkast_skickat
  approve : Arrow utkast_skickat godkand
  publish : Arrow godkand publicerad
  cancel : {s : OrderStatus} → is_terminal s ≡ false → Arrow s avbruten

Arrow-of_can : (s n : OrderStatus) → can_transition_to s n ≡ true → Arrow s n
unfolding can_transition_to next_allowed is_terminal
Arrow-of_can ny utkast_skickat h = propose
Arrow-of_can utkast_skickat godkand h = approve
Arrow-of_can godkand publicerad h = publish
Arrow-of_can ny avbruten h = cancel refl
Arrow-of_can utkast_skickat avbruten h = cancel refl
Arrow-of_can godkand avbruten h = cancel refl
Arrow-of_can _ _ h = cc

cancel_allowed : (s : OrderStatus) → is_terminal s ≡ false → can_transition_to s avbruten ≡ true
unfolding can_transition_to next_allowed is_terminal
cancel_allowed ny h = refl
cancel_allowed utkast_skickat h = refl
cancel_allowed godkand h = refl
cancel_allowed _ h = cc

pub can_of_Arrow : {s n : OrderStatus} → Arrow s n → can_transition_to s n ≡ true
unfolding can_transition_to next_allowed is_terminal
can_of_Arrow propose = refl
can_of_Arrow approve = refl
can_of_Arrow publish = refl
can_of_Arrow (cancel {s} h) = cancel_allowed s h

-- `can_transition_to` allows exactly the arrows of the diagram: ny to utkast_skickat to godkand to
-- publicerad, and from every status that is not terminal to avbruten.
pub can_transition_to_iff : (s n : OrderStatus) → (can_transition_to s n ≡ true) ↔ Arrow s n
can_transition_to_iff s n = (Arrow-of_can s n, can_of_Arrow)

-- The moves that a history of requests asks for, one after the other.
unfoldable pub walk : OrderStatus → List OrderStatus → Result TransitionError OrderStatus
walk s [] = ok s
walk s (n ∷ ns) = elim (transition_to s n) [ ok t ↦ walk t ns | err e ↦ err e ]

-- How far along a status is.
abbrev pub rank : OrderStatus → ℕ
rank ny = 0
rank utkast_skickat = 1
rank godkand = 2
rank publicerad = 3
rank avbruten = 3

transition_to-lt :
    (s n : OrderStatus) {t : OrderStatus}
    → transition_to s n ≡ ok t
    → (t ≡ n) × (can_transition_to s n ≡ true) × (rank s < rank t)
unfolding transition_to can_transition_to next_allowed
transition_to-lt s n h = ground arith

walk-rank :
    (s : OrderStatus) (ns : List OrderStatus) {t : OrderStatus}
    → walk s ns ≡ ok t
    → rank s + length ns ≤ rank t
unfolding walk
walk-rank s [] h = ground arith
walk-rank s (n ∷ ns) {t = u} h = elim (Result-cases (transition_to s n)) [
  | inl (t, e) ↦
      omega (arith, (transition_to-lt s n e).2, walk-rank t ns {t = u} (rw (e, walk) at h))
  | inr (x, e) ↦ cc (rw (e, walk) at h)
]

rank-le : (s : OrderStatus) → rank s ≤ 3
rank-le s = ground arith

-- No history of accepted moves is longer than three, from whatever status it sets out.
pub walk_bounded :
    (s : OrderStatus) (ns : List OrderStatus) {t : OrderStatus} → walk s ns ≡ ok t → length ns ≤ 3
walk_bounded s ns {t} h = omega (arith, walk-rank s ns h, rank-le t)

walk_one : (a : OrderStatus) → walk ny (a ∷ []) ≡ ok publicerad → ⊥
unfolding walk transition_to can_transition_to next_allowed
walk_one a h = ground arith

walk_two : (a b : OrderStatus) → walk ny (a ∷ b ∷ []) ≡ ok publicerad → ⊥
unfolding walk transition_to can_transition_to next_allowed
walk_two a b h = ground arith

walk_three :
    (a b c : OrderStatus)
    → walk ny (a ∷ b ∷ c ∷ []) ≡ ok publicerad
    → (a ≡ utkast_skickat) × (b ≡ godkand) × (c ≡ publicerad)
unfolding walk transition_to can_transition_to next_allowed
walk_three a b c h = ground arith

-- The only history of accepted moves by which a new order comes to be published is the happy path:
-- a draft sent, approved, published. No step is skipped, repeated or taken back.
pub walk-published :
    (ns : List OrderStatus)
    → walk initial ns ≡ ok publicerad
    → ns ≡ utkast_skickat ∷ godkand ∷ publicerad ∷ []
unfolding walk
walk-published [] h = cc
walk-published (a ∷ []) h = absurd (walk_one a h)
walk-published (a ∷ b ∷ []) h = absurd (walk_two a b h)
walk-published (a ∷ b ∷ c ∷ []) h = let (x, y, z) = walk_three a b c h in cc
walk-published (a ∷ b ∷ c ∷ d ∷ ns) h =
    absurd (omega (arith, walk_bounded ny (a ∷ b ∷ c ∷ d ∷ ns) h))
