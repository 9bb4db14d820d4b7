-- ===== src/Studio/Panel/Readonly.antt =====
-- The columns that the panel protects are those that no action changes.
use hemsidor.Prelude.{
  ◌∙◌, is_some, any, map, Bool-cases, inl, inr, true, false, [], ◌∷◌, none, ℕ, Bool, ◌≡◌, refl, sym,
  Option, some, List, find, ◌==◌, All,
}
use mathlib.Core.Path.{subst}
use hemsidor.Text.{Text, text_eq}
use hemsidor.Studio.Models.{Order}
use hemsidor.Studio.Backend.{Orm, IsOrm}
use hemsidor.Handover.Cell.{Cell}
use hemsidor.Studio.Monad.{World, Mail}
use hemsidor.Studio.Grows.{Unique, order_ids, OrderGrows}
use hemsidor.Studio.Interleaved.Retains.{Follows-Readable}
use hemsidor.Studio.Monad.Keeps.{Readable}
use hemsidor.Core.Status
use hemsidor.Core.Status.{all_statuses, from_slug}
use hemsidor.Studio.Actions.{replay}
use hemsidor.Studio.Grows.History.{replay-Grows}
use hemsidor.Studio.Lives.{Extends-find}
use hemsidor.Studio.Panel.{Value, number, text, optional_text, moment, key, flag, cell}
use hemsidor.Studio.Panel.Orders.{order_columns, order_choices, readonly_fields}

-- The column exists, and holds the same in both rows.
abbrev pub SameCell : Order → Order → Text → Type 0
SameCell x y name =
    (v : Value) × (cell name (order_columns x) ≡ some v) × (cell name (order_columns y) ≡ some v)

facts_kept :
    (x : Order) (status : Text) (customer_id : Option ℕ)
    → All (SameCell x (record x { status = status; customer_id = customer_id })) readonly_fields
unfolding readonly_fields cell order_columns text_eq
facts_kept x status customer_id = (
  (_, refl, refl),
  (
    (_, refl, refl),
    (
      (_, refl, refl),
      (
        (_, refl, refl),
        (
          (_, refl, refl),
          (
            (_, refl, refl),
            (
              (_, refl, refl),
              ((_, refl, refl), ((_, refl, refl), ((_, refl, refl), ((_, refl, refl), tt)))),
            ),
          ),
        ),
      ),
    ),
  ),
)

abbrev pub holds : Option Value → List Text → Bool
holds none offered = false
holds (some (number n)) offered = false
holds (some (text t)) offered = any (λ choice. text_eq choice t) offered
holds (some (optional_text t)) offered = false
holds (some (moment t)) offered = false
holds (some (key n)) offered = false
holds (some (flag b)) offered = false

-- The column holds one of the choices that are offered for it.
abbrev pub IsOffered : Order → Text × List Text → Type 0
IsOffered x (name, offered) = holds (cell name (order_columns x)) offered ≡ true

abbrev pub StillOffered : Order → Order → Text × List Text → Type 0
StillOffered x y choice = IsOffered x choice → IsOffered y choice

any_slug :
    {A : Type 0} (slug : A → Text) (t : Text) (xs : List A)
    → any (λ choice. text_eq choice t) (map slug xs) ≡ is_some (find (λ x. text_eq (slug x) t) xs)
any_slug slug t [] = refl
any_slug slug t (x ∷ xs) = elim (Bool-cases (text_eq (slug x) t)) [
  | inl here ↦ rw here refl
  | inr other ↦ rw other (any_slug slug t xs)
]

any_status :
    (t : Text)
    → any (λ choice. text_eq choice t) (map Status.slug all_statuses) ≡ is_some (from_slug t)
unfolding from_slug
any_status t = any_slug Status.slug t all_statuses

choices_kept :
    (x : Order) (status : Text) (customer_id : Option ℕ)
    → (Readable x.status → Readable status)
    → All (StillOffered x (record x { status = status; customer_id = customer_id })) order_choices
unfolding order_choices cell order_columns text_eq Status.slug
choices_kept x status customer_id readable =
    (λ h. h, (λ h. h, (λ h. any_status status ∙ readable (sym (any_status x.status) ∙ h), tt)))

-- The columns that cannot be edited hold what they held, and those with choices, one of these.
pub record Protected (x y : Order) : Type 0 where
  pub same : All (SameCell x y) readonly_fields
  pub offered : All (StillOffered x y) order_choices

OrderGrows-Protected : (x y : Order) → OrderGrows x y → Protected x y
OrderGrows-Protected x y grows = subst (Protected x) (sym grows.facts) (record {
  same = facts_kept x y.status y.customer_id;
  offered = choices_kept x y.status y.customer_id (Follows-Readable grows.follows);
})

module _ (o : Orm) (laws : IsOrm o) (c : Cell) (mail : Option Mail) (signing : Bool) where
  -- Where the database keeps to IsOrm and the orders' keys are unique: whatever bulk actions are run,
  -- an order is still found under its key. Every column that the panel declares read-only is a
  -- column of the order and holds what it held, and each column that held one of the choices which
  -- the panel offers for it holds one of them.
  pub replay-Protected :
      (history : List (Text × List ℕ)) (w : World o c) (id : ℕ) (order : Order)
      → Unique (order_ids (o.tables w.db))
      → find (λ row. row.id == id) (o.tables w.db).orders ≡ some order
      → (after : Order) × (find
            (λ row. row.id == id)
            (o.tables (replay o c mail signing history w).db).orders
          ≡ some after)
        × Protected order after
  replay-Protected history w id order unique h =
      let grown = replay-Grows o laws c mail signing history w unique in
      let (after, there, grows) =
        Extends-find id (o.tables w.db).orders
          (o.tables (replay o c mail signing history w).db).orders order grown.orders h in
      (after, there, OrderGrows-Protected order after grows)
