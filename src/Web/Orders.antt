-- ===== src/Web/Orders.antt =====
-- crates/hemsidor24-web/src/orders.rs: storing an order, then telling about it. Postgres and the
-- notifier are parameters: an insert, an update and a message may each fail.
pub mod Table
use hemsidor.Prelude.{ℕ, Option, ◌∷◌, [], ◌++◌, ok, err, Result, map_err}
use mathlib.Core.Option
use hemsidor.Text.{Text}
use hemsidor.Text.Split.{join}
use hemsidor.Core.Order.{Order}
use hemsidor.Core.Style
use hemsidor.Core.Package
use hemsidor.Notify.Message.{Message, studio_notification, customer_confirmation}
use hemsidor.Notify.Notifier.{NotifyError}

-- The columns that the INSERT names; the database fills in the others.
pub record NewRow : Type 0 where
  pub company : Text
  pub city : Text
  pub phone : Text
  pub email : Text
  pub services : Text
  pub style : Text
  pub «package» : Text
  pub ip_hash : Option Text
  pub user_agent : Option Text

pub record Backend : Type 1 where
  pub Db : Type 0
  pub Post : Type 0
  pub insert_order : NewRow → Db → Result Text ℕ × Db
  -- `UPDATE orders SET notified_at = now() WHERE id = $1`
  pub set_notified : ℕ → Db → Result Text (Unit {0}) × Db
  -- `encode(sha256(text::bytea), 'hex')`
  pub sha256_hex : Text → Text
  pub send : Message → Post → Result NotifyError (Unit {0}) × Post

pub data StoreError : Type 0 where
  database : Text → StoreError

pub record RequestMeta : Type 0 where
  pub ip : Option Text
  pub user_agent : Option Text

module _ (b : Backend) where
  pub record Service : Type 0 where
    pub db : b.Db
    pub post : b.Post

  unfoldable pub new_row : Order → RequestMeta → Text → NewRow
  new_row order meta salt = record {
    company = order.company;
    city = order.city;
    phone = order.phone;
    email = order.email;
    services = join (b'\n' ∷ []) order.services;
    style = Style.slug order.style;
    «package» = Package.slug order.«package»;
    ip_hash = Option.map (λ ip. b.sha256_hex (ip ++ salt)) meta.ip;
    user_agent = meta.user_agent;
  }

  -- `store`
  unfoldable pub store : Order → RequestMeta → Text → Service → Result StoreError ℕ × Service
  store order meta salt s = (
    map_err database (b.insert_order (new_row order meta salt) s.db).0,
    record s { db = (b.insert_order (new_row order meta salt) s.db).1 },
  )

  -- The database after the studio's copy was sent, or was not.
  abbrev pub noted : Result NotifyError (Unit {0}) → ℕ → b.Db → b.Db
  noted (ok sent) order_id db = (b.set_notified order_id db).1
  noted (err error) order_id db = db

  -- `notify`: the studio's copy, its stamp, then the customer's receipt. Failures are only logged.
  unfoldable pub notify : Order → ℕ → Text → Text → Service → Service
  notify order order_id to from s =
      let (sent, post) = b.send (studio_notification order order_id to from) s.post in
      record {
        db = noted sent order_id s.db;
        post = (b.send (customer_confirmation order to from) post).1;
      }
