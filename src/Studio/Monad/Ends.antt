-- ===== src/Studio/Monad/Ends.antt =====
-- How an action ends: what holds of the world after a refusal, and of the answer and the world after
-- success. One rule for each statement of an action.
use hemsidor.Prelude.{
  Bool, true, false, ◌≡◌, refl, Option, none, some, Result, ok, err, ◌++◌, ◌∷◌, [], Result-cases,
  inl, inr, map_err, unwrap_or,
}
use mathlib.Core.Path.{subst}
use hemsidor.Text.{Text}
use hemsidor.Notify.Message.{Message}
use hemsidor.Studio.Backend.{Orm}
use hemsidor.Handover.Cell.{Cell}
use hemsidor.Studio.Monad.{
  World, Action, Mail, Refusal, pure, require, read, read_or, write, attempt, notify, guard, ◌>>=◌,
  continue,
}

abbrev pub Post :
    {o : Orm} {c : Cell} {A : Type 0}
    → (World o c → Type 0)
    → (A → World o c → Type 0)
    → Result Refusal A
    → World o c
    → Type 0
Post P Q (ok a) w = Q a w
Post P Q (err why) w = P w

pub record Ends {o : Orm} {c : Cell} {A : Type 0} (P : World o c → Type 0)
    (Q : A → World o c → Type 0) (m : Action o c A) (w : World o c) : Type 0 where
  pub at : Post P Q (m w).0 (m w).1

module _ {o : Orm} {c : Cell} where
  abbrev pub delivered : Option Mail → (Mail → Message) → World o c → World o c
  delivered none message w = w
  delivered (some mail) message w = record w { outbox = w.outbox ++ message mail ∷ [] }

module _ {o : Orm} {c : Cell} {A : Type 0} where
  last :
      (P : World o c → Type 0) (Q : A → World o c → Type 0) (why : Text → Refusal) (w : World o c)
      (r : Result Text A)
      → ((e : Text) → r ≡ err e → P w)
      → ((a : A) → r ≡ ok a → Q a w)
      → Post P Q (map_err why r) w
  last P Q why w (ok a) p k = k a refl
  last P Q why w (err e) p k = p e refl

module _ {o : Orm} {c : Cell} {P : World o c → Type 0} where
  module _ {A B : Type 0} {Q : A → World o c → Type 0} {R : B → World o c → Type 0} where
    Post-continue :
        (f : A → Action o c B) (r : Result Refusal A) (w : World o c)
        → Post P Q r w
        → ((a : A) (v : World o c) → Q a v → Ends P R (f a) v)
        → Post P R (continue f r w).0 (continue f r w).1
    Post-continue f (ok a) w h k = (k a w h).at
    Post-continue f (err e) w h k = h

    pub Ends-bind :
        (m : Action o c A) (f : A → Action o c B) (w : World o c)
        → Ends P Q m w
        → ((a : A) (v : World o c) → Q a v → Ends P R (f a) v)
        → Ends P R (m >>= f) w
    unfolding ◌>>=◌
    Ends-bind m f w h k = record { at = Post-continue f (m w).0 (m w).1 h.at k }

  module _ {B : Type 0} {R : B → World o c → Type 0} where
    pub Ends-pure : (b : B) (w : World o c) → R b w → Ends P R (pure b) w
    unfolding pure
    Ends-pure b w h = record { at = h }

    module _ {A : Type 0} where
      pub Ends-require :
          (found : Option A) (why : Refusal) (f : A → Action o c B) (w : World o c)
          → P w
          → ((a : A) → found ≡ some a → Ends P R (f a) w)
          → Ends P R (require found why >>= f) w
      unfolding ◌>>=◌ require
      Ends-require none why f w p k = record { at = p }
      Ends-require (some a) why f w p k = record { at = (k a refl).at }

      fallible :
          (why : Text → Refusal) (f : A → Action o c B) (w : World o c) (r : Result Text A)
          → ((e : Text) → r ≡ err e → P w)
          → ((a : A) → r ≡ ok a → Ends P R (f a) w)
          → Post P R (continue f (map_err why r) w).0 (continue f (map_err why r) w).1
      fallible why f w (ok a) p k = (k a refl).at
      fallible why f w (err e) p k = p e refl

      pub Ends-read :
          (query : o.Db → Result Text A) (why : Text → Refusal) (f : A → Action o c B)
          (w : World o c)
          → P w
          → ((a : A) → query w.db ≡ ok a → Ends P R (f a) w)
          → Ends P R (read query why >>= f) w
      unfolding ◌>>=◌ read
      Ends-read query why f w p k = record { at = fallible why f w (query w.db) (λ e h. p) k }

      pub Ends-read_or :
          (default : A) (query : o.Db → Result Text A) (f : A → Action o c B) (w : World o c)
          → ((a : A) → a ≡ unwrap_or default (query w.db) → Ends P R (f a) w)
          → Ends P R (read_or default query >>= f) w
      unfolding ◌>>=◌ read_or
      Ends-read_or default query f w k = record {
        at = (k (unwrap_or default (query w.db)) refl).at;
      }

      -- A statement that fails leaves its world for the refusal, one that succeeds for the rest.
      pub Ends-write :
          (statement : o.Db → Result Text A × o.Db) (why : Text → Refusal) (f : A → Action o c B)
          (w : World o c)
          → ((e : Text) → (statement w.db).0 ≡ err e → P (record w { db = (statement w.db).1 }))
          → ((a : A)
              → (statement w.db).0 ≡ ok a
              → Ends P R (f a) (record w { db = (statement w.db).1 }))
          → Ends P R (write statement why >>= f) w
      unfolding ◌>>=◌ write
      Ends-write statement why f w p k = record {
        at = fallible why f (record w { db = (statement w.db).1 }) (statement w.db).0 p k;
      }

    pub Ends-guard :
        (test : Bool) (why : Refusal) (f : Unit {0} → Action o c B) (w : World o c)
        → P w
        → (test ≡ true → Ends P R (f tt) w)
        → Ends P R (guard test why >>= f) w
    unfolding ◌>>=◌ guard
    Ends-guard true why f w p k = record { at = (k refl).at }
    Ends-guard false why f w p k = record { at = p }

    pub Ends-attempt :
        (statement : o.Db → Result Text (Unit {0}) × o.Db) (f : Unit {0} → Action o c B)
        (w : World o c)
        → Ends P R (f tt) (record w { db = (statement w.db).1 })
        → Ends P R (attempt statement >>= f) w
    unfolding ◌>>=◌ attempt
    Ends-attempt statement f w k = record { at = k.at }

  -- A write with nothing after it.
  pub Ends-last_write :
      {A : Type 0} {Q : A → World o c → Type 0} (statement : o.Db → Result Text A × o.Db)
      (why : Text → Refusal) (w : World o c)
      → ((e : Text) → (statement w.db).0 ≡ err e → P (record w { db = (statement w.db).1 }))
      → ((a : A) → (statement w.db).0 ≡ ok a → Q a (record w { db = (statement w.db).1 }))
      → Ends P Q (write statement why) w
  unfolding write
  Ends-last_write {Q = Q} statement why w p k = record {
    at = last P Q why (record w { db = (statement w.db).1 }) (statement w.db).0 p k;
  }

  -- What an action returns when it finds it.
  pub Ends-last_require :
      {A : Type 0} {Q : A → World o c → Type 0} (found : Option A) (why : Refusal) (w : World o c)
      → P w
      → ((a : A) → found ≡ some a → Q a w)
      → Ends P Q (require found why) w
  unfolding require
  Ends-last_require none why w p q = record { at = p }
  Ends-last_require (some a) why w p q = record { at = q a refl }

  -- The message with which an action ends.
  pub Ends-notify :
      {Q : Unit {0} → World o c → Type 0} (mail : Option Mail) (message : Mail → Message)
      (w : World o c)
      → Q tt (delivered mail message w)
      → Ends P Q (notify mail message) w
  unfolding notify
  Ends-notify none message w h = record { at = h }
  Ends-notify (some mail) message w h = record { at = h }

  -- What an action ends with, by its answer.
  pub Ends-err :
      {A : Type 0} {Q : A → World o c → Type 0} (m : Action o c A) (w : World o c) (why : Refusal)
      → Ends P Q m w
      → (m w).0 ≡ err why
      → P (m w).1
  Ends-err {Q = Q} m w why h e = subst (λ r. Post P Q r (m w).1) e h.at

  pub Ends-ok :
      {A : Type 0} {Q : A → World o c → Type 0} (m : Action o c A) (w : World o c) (a : A)
      → Ends P Q m w
      → (m w).0 ≡ ok a
      → Q a (m w).1
  Ends-ok {Q = Q} m w a h e = subst (λ r. Post P Q r (m w).1) e h.at

  -- Where both ends say the same.
  pub Ends-both : {A : Type 0} (m : Action o c A) (w : World o c) → Ends P (λ a. P) m w → P (m w).1
  Ends-both m w h = elim (Result-cases (m w).0) [
    | inl (a, e) ↦ Ends-ok m w a h e
    | inr (why, e) ↦ Ends-err m w why h e
  ]
