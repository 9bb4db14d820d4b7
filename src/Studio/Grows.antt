-- ===== src/Studio/Grows.antt =====
-- How the studio's tables may change: rows are never removed or renumbered, what the customer typed
-- and what was stamped, flagged or linked stays, and a status moves along the arrows of its diagram.
pub mod Rows
pub mod Stamps
pub mod Statements
pub mod Writes
pub mod OneOrder
pub mod History
use hemsidor.Prelude.{
  ℕ, Bool, true, false, ◌≡◌, refl, sym, ap, ◌∙◌, ◌⊎◌, inl, inr, Option, none, some, List, [], ◌∷◌,
  ◌++◌, map, any, ◌==◌,
}
use hemsidor.Text.{Text}
use hemsidor.Core.Status.{OrderStatus, slug, from_slug}
use hemsidor.Core.Status.Laws.{Arrow}
use hemsidor.Studio.Models.{Order, Customer, Site, Delivery}
use hemsidor.Studio.Tables.{Tables}

-- One stored status comes from another by moves of the diagram.
pub data Follows : Text → Text → Type 0 where
  stay : {t : Text} → Follows t t
  move :
      {t u : Text} (s n : OrderStatus)
      → from_slug t ≡ some s
      → Arrow s n
      → Follows (slug n) u
      → Follows t u

-- A value that is there stays.
abbrev pub Kept {ℓ} : {A : Type ℓ} → Option A → Option A → Type ℓ
Kept {A} none b = Unit
Kept {A} (some a) b = b ≡ some a

-- A flag that is set stays set.
abbrev pub Raised : Bool → Bool → Type 0
Raised a b = a ≡ true → b ≡ true

pub record OrderGrows (x y : Order) : Type 0 where
  pub facts : y ≡ record x { status = y.status; customer_id = y.customer_id }
  pub follows : Follows x.status y.status
  pub linked : Kept x.customer_id y.customer_id

pub record SiteGrows (x y : Site) : Type 0 where
  pub facts : y ≡ record x { published_at = y.published_at }
  pub published : Kept x.published_at y.published_at

pub record DeliveryGrows (x y : Delivery) : Type 0 where
  pub facts : y ≡ record x {
    offered_at = y.offered_at;
    accepted_at = y.accepted_at;
    domain_transferred = y.domain_transferred;
    hosting_transferred = y.hosting_transferred;
    source_transferred = y.source_transferred;
    refunded_at = y.refunded_at;
  }
  pub offered : Kept x.offered_at y.offered_at
  pub accepted : Kept x.accepted_at y.accepted_at
  pub refunded : Kept x.refunded_at y.refunded_at
  pub domain : Raised x.domain_transferred y.domain_transferred
  pub hosting : Raised x.hosting_transferred y.hosting_transferred
  pub source : Raised x.source_transferred y.source_transferred

-- Every row is still at its place, changed as `R` allows; rows may follow.
abbrev pub Extends : {A : Type 0} → (A → A → Type 0) → List A → List A → Type 0
Extends R [] ys = Unit
Extends R (x ∷ xs) [] = ⊥
Extends R (x ∷ xs) (y ∷ ys) = R x y × Extends R xs ys

abbrev pub order_ids : Tables → List ℕ
order_ids t = map (λ row. row.id) t.orders

-- The primary key: no identifier twice.
abbrev pub Unique : List ℕ → Type 0
Unique [] = Unit
Unique (n ∷ ns) = (any (λ m. m == n) ns ≡ false) × Unique ns

abbrev pub Same {ℓ} : {A : Type ℓ} → A → A → Type ℓ
Same x y = y ≡ x

pub record Grows (t u : Tables) : Type 0 where
  pub orders : Extends OrderGrows t.orders u.orders
  pub ids : order_ids u ≡ order_ids t
  pub customers : Extends Same t.customers u.customers
  pub domains : u.domains ≡ t.domains
  pub sites : Extends SiteGrows t.sites u.sites
  pub deliveries : Extends DeliveryGrows t.deliveries u.deliveries
