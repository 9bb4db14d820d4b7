-- ===== src/Studio/Monad.antt =====
-- One action of the studio on one order: it reads and writes the database, hands messages to the
-- mailer, signs into the cell, and may refuse with a reason. What was written before a refusal
-- stays written: there is no transaction.
pub mod Ends
pub mod Keeps
pub mod Calls
use hemsidor.Prelude.{
  ℕ, Bool, true, false, Option, none, some, List, [], ◌∷◌, ◌++◌, Result, ok, err, map_err,
  unwrap_or,
}
use hemsidor.Text.{Text}
use hemsidor.Core.Status.{OrderStatus}
use hemsidor.Notify.Message.{Message}
use hemsidor.Studio.Backend.{Orm}
use hemsidor.Handover.Cell.{Cell}

-- The reason that the operator is shown; each constructor is one text of the source, with the
-- values that are put into it.
pub data Refusal : Type 0 where
  order_missing : Refusal
  order_unreadable : Text → Refusal
  unknown_status unknown_package : Text → Refusal
  cannot_move : (to current : OrderStatus) → Refusal
  status_not_saved : Text → Refusal
  has_customer is_cancelled : Refusal
  customer_not_created site_not_created delivery_not_created not_linked : Text → Refusal
  cannot_publish : (current : OrderStatus) → Refusal
  sites_unreadable deliveries_unreadable : Text → Refusal
  site_missing no_live_url no_customer : Refusal
  cancel_first : (current : OrderStatus) → Refusal
  nothing_to_refund delivery_missing no_refund_reason already_refunded : Refusal
  refund_not_saved : Text → Refusal

-- Where the configured mail goes: `Mail` of mail.rs, less the notifier, whose failures are logged.
pub record Mail : Type 0 where
  pub studio : Text
  pub from : Text

-- What is handed to the mailer: nothing where none is configured.
abbrev pub handed : Option Mail → (Mail → Message) → List Message
handed none message = []
handed (some mail) message = message mail ∷ []

-- The database, the signing cell, and the messages that were handed to the mailer.
pub record World (o : Orm) (c : Cell) : Type 0 where
  pub db : o.Db
  pub cell : c.State
  pub outbox : List Message

module _ (o : Orm) (c : Cell) where
  abbrev pub Action : Type 0 → Type 0
  Action A = World o c → Result Refusal A × World o c

module _ {o : Orm} {c : Cell} {A : Type 0} where
  unfoldable pub pure : A → Action o c A
  pure a w = (ok a, w)

  -- `ok_or_else(…)?`
  unfoldable pub require : Option A → Refusal → Action o c A
  require none why w = (err why, w)
  require (some a) why w = (ok a, w)

  -- `.map_err(…)?` on a read.
  unfoldable pub read : (o.Db → Result Text A) → (Text → Refusal) → Action o c A
  read query why w = (map_err why (query w.db), w)

  -- A read whose failure counts as nothing found.
  unfoldable pub read_or : A → (o.Db → Result Text A) → Action o c A
  read_or default query w = (ok (unwrap_or default (query w.db)), w)

  -- `.map_err(…)?` on a write.
  unfoldable pub write : (o.Db → Result Text A × o.Db) → (Text → Refusal) → Action o c A
  write statement why w =
      let (result, db) = statement w.db in (map_err why result, record w { db = db })

module _ {o : Orm} {c : Cell} where
  infixl 5 ◌>>=◌ ◌>>◌
  abbrev pub continue : {A B : Type 0} → (A → Action o c B) → Result Refusal A → Action o c B
  continue f (ok a) w = f a w
  continue f (err why) w = (err why, w)

  unfoldable pub ◌>>=◌ : {A B : Type 0} → Action o c A → (A → Action o c B) → Action o c B
  ◌>>=◌ m f w = continue f (m w).0 (m w).1

  -- `m.await?;` where there is nothing to bind.
  abbrev pub ◌>>◌ : {B : Type 0} → Action o c (Unit {0}) → Action o c B → Action o c B
  m >> k = m >>= λ _. k

  -- `if !test { return Err(why) }`
  unfoldable pub guard : Bool → Refusal → Action o c (Unit {0})
  guard true why w = (ok tt, w)
  guard false why w = (err why, w)

  -- A write whose failure is logged and swallowed.
  unfoldable pub attempt : (o.Db → Result Text (Unit {0}) × o.Db) → Action o c (Unit {0})
  attempt statement w = (ok tt, record w { db = (statement w.db).1 })

  -- `mail.send`, which never fails; with no mailer the message is not handed on.
  unfoldable pub notify : Option Mail → (Mail → Message) → Action o c (Unit {0})
  notify none message w = (ok tt, w)
  notify (some mail) message w = (ok tt, record w { outbox = w.outbox ++ message mail ∷ [] })
