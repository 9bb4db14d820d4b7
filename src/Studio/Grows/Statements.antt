-- ===== src/Studio/Grows/Statements.antt =====
-- The two UPDATE statements that write to `orders` let the tables grow, for a row that was found by
-- its key.
use hemsidor.Prelude.{
  ℕ, false, ◌≡◌, refl, sym, ap₂, none, some, List, [], ◌∷◌, map, any, find, ◌==◌, arith, Bool-cases,
  inl, inr, ==_iff, find_passes,
}
use mathlib.Core.Path.{subst}
use hemsidor.Text.{Text}
use hemsidor.Core.Status.{OrderStatus, slug, from_slug}
use hemsidor.Core.Status.Laws.{Arrow}
use hemsidor.Studio.Models.{Order}
use hemsidor.Studio.Tables.{Tables, set_status, link_customer, with_status, with_customer, perform}
use hemsidor.Studio.Grows.{stay, move, Kept, OrderGrows, Extends, Unique, Grows, order_ids}
use hemsidor.Studio.Grows.Rows.{OrderGrows-refl, Extends-refl, Grows-orders, Kept-refl}

-- A change of the one row with a key, where the key names one row.
module _ (f : Order → Order) (id : ℕ) (others : (x : Order) → (x.id == id) ≡ false → f x ≡ x)
    (same_id : (x : Order) → (f x).id ≡ x.id) where
  map_others :
      (os : List Order) → any (λ m. m == id) (map (λ row. row.id) os) ≡ false → map f os ≡ os
  map_others [] h = refl
  map_others (x ∷ os) h =
      ap₂ (λ a b. a ∷ b) (others x (ground arith)) (map_others os (ground arith))

  pub changed_row :
      (os : List Order) (order : Order)
      → Unique (map (λ row. row.id) os)
      → find (λ row. row.id == id) os ≡ some order
      → OrderGrows order (f order)
      → Extends OrderGrows os (map f os)
  changed_row [] order u h g = tt
  changed_row (x ∷ os) order (u, us) h g = elim (Bool-cases (x.id == id)) [
    | inl here ↦
        let same : x ≡ order = ground arith in
        let rest : map f os ≡ os = map_others os (rw (sym ((==_iff x.id id).0 here)) u) in
        (
          subst (λ y. OrderGrows y (f y)) (sym same) g,
          subst (Extends OrderGrows os) (sym rest) (Extends-refl OrderGrows OrderGrows-refl os),
        )
    | inr there ↦ (
      subst (OrderGrows x) (sym (others x there)) (OrderGrows-refl x),
      changed_row os order us (ground arith) g,
    )
  ]

  pub map_ids : (os : List Order) → map (λ row. row.id) (map f os) ≡ map (λ row. row.id) os
  map_ids [] = refl
  map_ids (x ∷ os) = ap₂ (λ a b. a ∷ b) (same_id x) (map_ids os)

module _ (order : Order) where
  status_written : (st : Text) → with_status st order.id order ≡ record order { status = st }
  status_written st = ground (arith, ==_iff order.id order.id)

  customer_written :
      (n : ℕ) → with_customer n order.id order ≡ record order { customer_id = some n }
  customer_written n = ground (arith, ==_iff order.id order.id)

  by_key :
      (t : Tables) (id : ℕ)
      → find (λ row. row.id == id) t.orders ≡ some order
      → find (λ row. row.id == order.id) t.orders ≡ some order
  by_key t id found =
      subst (λ k. find (λ row. row.id == k) t.orders ≡ some order)
        (sym ((==_iff order.id id).0 (find_passes (λ row. row.id == id) t.orders found))) found

  -- A status is written for an order that was found with a status from which an arrow leads there.
  pub set_status-Grows :
      (now id : ℕ) (current to : OrderStatus) (t : Tables)
      → Unique (order_ids t)
      → find (λ row. row.id == id) t.orders ≡ some order
      → from_slug order.status ≡ some current
      → Arrow current to
      → Grows t (perform now (set_status (slug to) order.id) t)
  unfolding perform
  set_status-Grows now id current to t unique found was arrow =
      let grown : OrderGrows order (record order { status = slug to }) = record {
        facts = refl;
        follows = move current to was arrow stay;
        linked = Kept-refl order.customer_id;
      } in
      Grows-orders t (map (with_status (slug to) order.id) t.orders)
        (changed_row (with_status (slug to) order.id) order.id (λ x h. ground arith)
          (λ x. ground arith) t.orders order unique (by_key t id found)
          (subst (OrderGrows order) (sym (status_written (slug to))) grown))
        (map_ids (with_status (slug to) order.id) order.id (λ x h. ground arith) (λ x. ground arith)
          t.orders)

  -- A customer is linked to an order that was found without one.
  pub link_customer-Grows :
      (now id customer_id : ℕ) (t : Tables)
      → Unique (order_ids t)
      → find (λ row. row.id == id) t.orders ≡ some order
      → order.customer_id ≡ none
      → Grows t (perform now (link_customer customer_id order.id) t)
  unfolding perform
  link_customer-Grows now id customer_id t unique found free =
      let grown : OrderGrows order (record order { customer_id = some customer_id }) = record {
        facts = refl;
        follows = stay;
        linked = subst (λ c. Kept c (some customer_id)) (sym free) tt;
      } in
      Grows-orders t (map (with_customer customer_id order.id) t.orders)
        (changed_row (with_customer customer_id order.id) order.id (λ x h. ground arith)
          (λ x. ground arith) t.orders order unique (by_key t id found)
          (subst (OrderGrows order) (sym (customer_written customer_id)) grown))
        (map_ids (with_customer customer_id order.id) order.id (λ x h. ground arith)
          (λ x. ground arith) t.orders)
