-- ===== src/Studio/Lives.antt =====
-- The back office as an abstract machine: all that it does to an order's status is a walk through the
-- diagram of crates/hemsidor24-core/src/status.rs.
use hemsidor.Prelude.{
  ℕ, Bool, ◌≡◌, refl, sym, ap, ◌∙◌, inl, inr, true, false, Option, none, some, List, [], ◌∷◌, find,
  ◌==◌, Bool-cases, ok, arith,
}
use mathlib.Core.Path.{subst}
use hemsidor.Text.{Text}
use hemsidor.Core.Status.{OrderStatus, from_slug, transition_to}
use hemsidor.Core.Status.Laws.{Arrow, can_of_Arrow, from_slug-slug, walk}
use hemsidor.Studio.Models.{Order}
use hemsidor.Studio.Backend.{Orm, IsOrm}
use hemsidor.Handover.Cell.{Cell}
use hemsidor.Studio.Monad.{World, Mail}
use hemsidor.Studio.Grows.{Follows, stay, move, OrderGrows, Extends, Unique, order_ids}
use hemsidor.Studio.Actions.{replay}
use hemsidor.Studio.Grows.History.{replay-Grows}

-- The status of the order with this key, where there is one and its status can be read.
abbrev pub read_status : Option Order → Option OrderStatus
read_status none = none
read_status (some order) = from_slug order.status

unfoldable pub status_of : ℕ → List Order → Option OrderStatus
status_of id orders = read_status (find (λ row. row.id == id) orders)

-- The abstract step: any number of accepted moves.
abbrev pub Walks : OrderStatus → Option OrderStatus → Type 0
Walks s after = (ns : List OrderStatus) × (t : OrderStatus) × (walk s ns ≡ ok t) × (after ≡ some t)

Arrow-taken : {s n : OrderStatus} → Arrow s n → transition_to s n ≡ ok n
unfolding transition_to
Arrow-taken {s} {n} a = rw (can_of_Arrow a) refl

Walks-behind :
    (s n : OrderStatus) (after : Option OrderStatus) → Arrow s n → Walks n after → Walks s after
unfolding walk
Walks-behind s n after a (ns, t, h, e) = (n ∷ ns, t, rw (Arrow-taken a, walk) h, e)

some_same : {A : Type 0} (a b : A) (o : Option A) → o ≡ some a → o ≡ some b → a ≡ b
some_same a b o h k = ground arith

Follows-Walks :
    {t u : Text} (s : OrderStatus) → Follows t u → from_slug t ≡ some s → Walks s (from_slug u)
unfolding walk
Follows-Walks s stay h = ([], s, refl, h)
Follows-Walks s (move {t} {u} r n e a rest) h =
    subst (λ x. Walks x (from_slug u)) (some_same r s (from_slug t) e h)
      (Walks-behind r n (from_slug u) a (Follows-Walks n rest (from_slug-slug n)))

find_here :
    (id : ℕ) (x : Order) (xs : List Order)
    → x.id == id ≡ true
    → find (λ row. row.id == id) (x ∷ xs) ≡ some x
find_here id x xs here = rw here refl

find_there :
    (id : ℕ) (x : Order) (xs : List Order)
    → x.id == id ≡ false
    → find (λ row. row.id == id) (x ∷ xs) ≡ find (λ row. row.id == id) xs
find_there id x xs other = rw other refl

-- The order is found where it was.
pub Extends-find :
    (id : ℕ) (xs ys : List Order) (order : Order)
    → Extends OrderGrows xs ys
    → find (λ row. row.id == id) xs ≡ some order
    → (after : Order) × (find (λ row. row.id == id) ys ≡ some after) × OrderGrows order after
Extends-find id [] ys order h e = absurd (ground arith)
Extends-find id (x ∷ xs) [] order h e = absurd h
Extends-find id (x ∷ xs) (y ∷ ys) order (grows, h) e =
    let same : y.id == id ≡ x.id == id = ap (λ (o : Order). o.id == id) grows.facts in
    elim (Bool-cases (x.id == id)) [
      | inl here ↦ (
        y,
        find_here id y ys (same ∙ here),
        subst (λ k. OrderGrows k y) (some_same x order _ (find_here id x xs here) e) grows,
      )
      | inr other ↦
          let (after, found, more) =
            Extends-find id xs ys order h (sym (find_there id x xs other) ∙ e) in
          (after, find_there id y ys (same ∙ other) ∙ found, more)
    ]

status_read :
    (o : Option Order) (s : OrderStatus)
    → read_status o ≡ some s
    → (order : Order) × (o ≡ some order) × (from_slug order.status ≡ some s)
status_read none s h = absurd (ground arith)
status_read (some order) s h = (order, refl, h)

pub Extends-status :
    (id : ℕ) (xs ys : List Order) (s : OrderStatus)
    → Extends OrderGrows xs ys
    → status_of id xs ≡ some s
    → Walks s (status_of id ys)
unfolding status_of
Extends-status id xs ys s h e =
    let (order, found, was) = status_read (find (λ row. row.id == id) xs) s e in
    let (after, there, grows) = Extends-find id xs ys order h found in
    subst (Walks s) (sym (ap read_status there)) (Follows-Walks s grows.follows was)

module _ (o : Orm) (laws : IsOrm o) (c : Cell) (mail : Option Mail) (signing : Bool) where
  -- Where the database keeps to IsOrm and the orders' keys are unique: the back office refines the
  -- status machine. Whatever bulk actions are run on whatever orders, an order whose status can be
  -- read is still there afterwards, its status can still be read, and it was reached from the former
  -- by moves that the core crate accepts.
  pub replay-Walks :
      (history : List (Text × List ℕ)) (w : World o c) (id : ℕ) (s : OrderStatus)
      → Unique (order_ids (o.tables w.db))
      → status_of id (o.tables w.db).orders ≡ some s
      → Walks s (status_of id (o.tables (replay o c mail signing history w).db).orders)
  replay-Walks history w id s unique h =
      let grown = replay-Grows o laws c mail signing history w unique in
      Extends-status id (o.tables w.db).orders
        (o.tables (replay o c mail signing history w).db).orders s grown.orders h
