-- ===== src/Studio/Backend.antt =====
-- What the back office uses of rustio-admin and of Postgres: reads, inserts and updates, each of
-- which may fail. `tables` is what the database holds, which only the laws and the theorems read.
use hemsidor.Prelude.{ℕ, ◌≡◌, Option, List, [], ◌∷◌, ◌++◌, find, ◌==◌, Result, ok, err}
use mathlib.Core.Option
use hemsidor.Text.{Text}
use hemsidor.Studio.Models.{Order, Customer, Site, Delivery}
use hemsidor.Studio.Tables.{Tables, Update, perform}

pub record Orm : Type 1 where
  pub Db : Type 0
  pub tables : Db → Tables
  pub now : Db → ℕ
  pub find_order : ℕ → Db → Result Text (Option Order)
  pub all_sites : Db → Result Text (List Site)
  pub all_deliveries : Db → Result Text (List Delivery)
  -- `SELECT name FROM domains WHERE id = $1`
  pub domain_name : ℕ → Db → Result Text (Option Text)
  pub create_customer : Customer → Db → Result Text ℕ × Db
  pub create_site : Site → Db → Result Text ℕ × Db
  pub create_delivery : Delivery → Db → Result Text ℕ × Db
  pub execute : Update → Db → Result Text (Unit {0}) × Db

-- A read that succeeds returns what the tables hold. A write that succeeds does what it says and
-- no more, and one that fails changes nothing.
pub record IsOrm (o : Orm) : Type 0 where
  pub find_order_ok :
      (id : ℕ) (d : o.Db) (r : Option Order)
      → o.find_order id d ≡ ok r
      → r ≡ find (λ row. row.id == id) (o.tables d).orders
  pub all_sites_ok :
      (d : o.Db) (rows : List Site) → o.all_sites d ≡ ok rows → rows ≡ (o.tables d).sites
  pub all_deliveries_ok :
      (d : o.Db) (rows : List Delivery)
      → o.all_deliveries d ≡ ok rows
      → rows ≡ (o.tables d).deliveries
  pub domain_name_ok :
      (id : ℕ) (d : o.Db) (r : Option Text)
      → o.domain_name id d ≡ ok r
      → r ≡ Option.map (λ row. row.name) (find (λ row. row.id == id) (o.tables d).domains)
  pub create_customer_ok :
      (c : Customer) (d : o.Db) (id : ℕ)
      → (o.create_customer c d).0 ≡ ok id
      → o.tables (o.create_customer c d).1
        ≡ record (o.tables d) { customers = (o.tables d).customers ++ record c { id = id } ∷ [] }
  pub create_customer_err :
      (c : Customer) (d : o.Db) (e : Text)
      → (o.create_customer c d).0 ≡ err e
      → o.tables (o.create_customer c d).1 ≡ o.tables d
  pub create_site_ok :
      (s : Site) (d : o.Db) (id : ℕ)
      → (o.create_site s d).0 ≡ ok id
      → o.tables (o.create_site s d).1
        ≡ record (o.tables d) { sites = (o.tables d).sites ++ record s { id = id } ∷ [] }
  pub create_site_err :
      (s : Site) (d : o.Db) (e : Text)
      → (o.create_site s d).0 ≡ err e
      → o.tables (o.create_site s d).1 ≡ o.tables d
  pub create_delivery_ok :
      (r : Delivery) (d : o.Db) (id : ℕ)
      → (o.create_delivery r d).0 ≡ ok id
      → o.tables (o.create_delivery r d).1
        ≡ record (o.tables d) { deliveries = (o.tables d).deliveries ++ record r { id = id } ∷ [] }
  pub create_delivery_err :
      (r : Delivery) (d : o.Db) (e : Text)
      → (o.create_delivery r d).0 ≡ err e
      → o.tables (o.create_delivery r d).1 ≡ o.tables d
  pub execute_ok :
      (u : Update) (d : o.Db)
      → (o.execute u d).0 ≡ ok tt
      → o.tables (o.execute u d).1 ≡ perform (o.now d) u (o.tables d)
  pub execute_err :
      (u : Update) (d : o.Db) (e : Text)
      → (o.execute u d).0 ≡ err e
      → o.tables (o.execute u d).1 ≡ o.tables d
