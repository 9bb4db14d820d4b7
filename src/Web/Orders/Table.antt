-- ===== src/Web/Orders/Table.antt =====
-- The table of crates/hemsidor24-web/src/orders.rs, as migrations/0001_create_orders.sql declares it:
-- the row that the database makes of an INSERT, and what the statements of the page do to the rows.
use hemsidor.Prelude.{
  ℕ, true, false, ◌≡◌, refl, ap, ◌∙◌, ◌⊎◌, inl, inr, Option, none, some, List, [], ◌∷◌, ◌++◌, map,
  any, ◌==◌, Result, Result-cases, ok, err, if◌then◌else◌, arith,
}
use hemsidor.Text.{Text, codes}
use hemsidor.Studio.Models.{Order}
use hemsidor.Notify.Notifier.{NotifyError}
use hemsidor.Web.Orders.{NewRow, Backend, noted}

-- The row right after the INSERT, with the columns that the database fills in.
unfoldable pub inserted : NewRow → ℕ → ℕ → Order
inserted row id received_at = record {
  id = id;
  company = row.company;
  city = row.city;
  phone = row.phone;
  email = row.email;
  services = row.services;
  style = row.style;
  «package» = row.«package»;
  status = codes "ny";
  received_at = received_at;
  ip_hash = row.ip_hash;
  user_agent = row.user_agent;
  notified_at = none;
  customer_id = none;
}

-- `SET notified_at = now() WHERE id = $1`
abbrev pub with_notified : ℕ → ℕ → Order → Order
with_notified now id o = if o.id == id then record o { notified_at = some now } else o

-- What the database holds and how its statements keep to it: a statement that succeeds does what it
-- says and no more, under a key that no row has; one that fails changes nothing.
pub record IsBackend (b : Backend) : Type 0 where
  pub orders : b.Db → List Order
  pub now : b.Db → ℕ
  pub insert_ok :
      (row : NewRow) (d : b.Db) (id : ℕ)
      → (b.insert_order row d).0 ≡ ok id
      → orders (b.insert_order row d).1 ≡ orders d ++ inserted row id (now d) ∷ []
  pub insert_key :
      (row : NewRow) (d : b.Db) (id : ℕ)
      → (b.insert_order row d).0 ≡ ok id
      → any (λ r. r.id == id) (orders d) ≡ false
  pub insert_err :
      (row : NewRow) (d : b.Db) (e : Text)
      → (b.insert_order row d).0 ≡ err e
      → orders (b.insert_order row d).1 ≡ orders d
  pub notified_ok :
      (id : ℕ) (d : b.Db)
      → (b.set_notified id d).0 ≡ ok tt
      → orders (b.set_notified id d).1 ≡ map (with_notified (now d) id) (orders d)
  pub notified_err :
      (id : ℕ) (d : b.Db) (e : Text)
      → (b.set_notified id d).0 ≡ err e
      → orders (b.set_notified id d).1 ≡ orders d

-- Only the row of that key is stamped.
stamp_last :
    (now id : ℕ) (os : List Order) (row : Order)
    → any (λ r. r.id == id) os ≡ false
    → row.id == id ≡ true
    → map (with_notified now id) (os ++ row ∷ []) ≡ os ++ record row { notified_at = some now } ∷ []
stamp_last now id [] row fresh here = rw here refl
stamp_last now id (r ∷ os) row fresh here = ground (arith, stamp_last now id os row, fresh, here)

-- The stamp of a row, after the studio's copy was given to the notifier with that answer: there is
-- one where the copy was sent, save where the update failed.
abbrev pub Told : (b : Backend) → IsBackend b → Result NotifyError (Unit {0}) → Order → Type 0
Told b laws (err error) row = row.notified_at ≡ none
Told b laws (ok sent) row =
    (d : b.Db) × (((row.notified_at ≡ some (laws.now d)) × ((b.set_notified row.id d).0 ≡ ok tt))
      ⊎ ((row.notified_at ≡ none) × (why : Text) × ((b.set_notified row.id d).0 ≡ err why)))

module _ (b : Backend) (laws : IsBackend b) where
  -- After the studio's copy the table has the same rows, of which the last may be stamped.
  pub noted-orders :
      (sent : Result NotifyError (Unit {0})) (row : NewRow) (id received_at : ℕ) (d : b.Db)
      (os : List Order)
      → laws.orders d ≡ os ++ inserted row id received_at ∷ []
      → any (λ r. r.id == id) os ≡ false
      → (n : Option ℕ) × (laws.orders (noted b sent id d)
          ≡ os ++ record (inserted row id received_at) { notified_at = n } ∷ [])
        × Told b laws sent (record (inserted row id received_at) { notified_at = n })
  unfolding inserted
  noted-orders (err error) row id received_at d os h fresh = (none, h, refl)
  noted-orders (ok sent) row id received_at d os h fresh =
      elim (Result-cases (b.set_notified id d).0) [
        | inr (why, e) ↦ (none, laws.notified_err id d why e ∙ h, (d, inr (refl, why, e)))
        | inl (done, e) ↦ (
          some (laws.now d),
          laws.notified_ok id d e
              ∙ (ap (map (with_notified (laws.now d) id)) h
                  ∙ stamp_last (laws.now d) id os (inserted row id received_at) fresh
                      (ground arith)),
          (d, inl (refl, e)),
        )
      ]
