-- ===== src/Studio/Startup/Administrator.antt =====
-- crates/hemsidor24-admin/src/main.rs: the first administrator, created once from the environment.
use hemsidor.Prelude.{
  ℕ, Bool, true, false, ◌≡◌, refl, ap, ◌∙◌, Option, none, some, length, ltb, Result, ok, err,
  to_option, if◌then◌else◌, arith,
}
use hemsidor.Text.{Text, codes}
use hemsidor.Env.{Env}
use hemsidor.Studio.Startup.{StartupError, invalid, admin_error, required, Accounts}

-- `MIN_PASSWORD_LEN`
abbrev pub min_password_len : ℕ
min_password_len = 12

module _ (f : Accounts) where
  open f use {Db, User, find_user_by_email, create_user, administrator}

  abbrev pub made : Result Text ℕ × Db → Result StartupError (Unit {0}) × Db
  made (ok id, db) = (ok tt, db)
  made (err e, db) = (err (admin_error e), db)

  -- What the search for the account answered.
  abbrev pub unless_found :
      Text → Text → Result Text (Option User) → Db → Result StartupError (Unit {0}) × Db
  unless_found email password (err e) db = (err (admin_error e), db)
  unless_found email password (ok (some user)) db = (ok tt, db)
  unless_found email password (ok none) db = made (create_user email password administrator db)

  abbrev pub unless_short : Bool → Text → Text → Db → Result StartupError (Unit {0}) × Db
  unless_short short email password db =
      if short
      then (err (invalid (codes "ADMIN_PASSWORD") (codes "expected at least 12 characters")), db)
      else unless_found email password (find_user_by_email email db) db

  -- By the address and the password, where both are set.
  abbrev pub ensure_account : Option Text → Option Text → Db → Result StartupError (Unit {0}) × Db
  ensure_account (some email) (some password) db =
      unless_short (ltb (length password) min_password_len) email password db
  ensure_account email password db = (ok tt, db)

  -- `ensure_first_administrator`
  unfoldable pub ensure_first_administrator : Env → Db → Result StartupError (Unit {0}) × Db
  ensure_first_administrator env db =
      ensure_account (to_option (required env (codes "ADMIN_EMAIL")))
        (to_option (required env (codes "ADMIN_PASSWORD"))) db

  -- An account that was created is found.
  pub record IsAccounts : Type 0 where
    pub created_found :
        (email password : Text) (db : Db) (id : ℕ)
        → (create_user email password administrator db).0 ≡ ok id
        → (user : User) × (find_user_by_email email (create_user email password administrator db).1
            ≡ ok (some user))

module _ (f : Accounts) (laws : IsAccounts f) where
  open f use {Db, User, find_user_by_email, create_user, administrator}

  made_ok :
      (result : Result Text ℕ × Db)
      → (made f result).0 ≡ ok tt
      → (id : ℕ) × (result.0 ≡ ok id) × ((made f result).1 ≡ result.1)
  made_ok (ok id, db) h = (id, refl, refl)
  made_ok (err e, db) h = absurd (ground arith)

  found_settles :
      (email password : Text) (found : Result Text (Option User)) (db : Db)
      → find_user_by_email email db ≡ found
      → (unless_found f email password found db).0 ≡ ok tt
      → (user : User) × (find_user_by_email email (unless_found f email password found db).1
          ≡ ok (some user))
  found_settles email password (err e) db here h = absurd (ground arith)
  found_settles email password (ok (some user)) db here h = (user, here)
  found_settles email password (ok none) db here h =
      let (id, made_id, after) = made_ok (create_user email password administrator db) h in
      let (user, there) = laws.created_found email password db id made_id in
      (user, ap (find_user_by_email email) after ∙ there)

  short_settles :
      (short : Bool) (email password : Text) (db : Db)
      → (unless_short f short email password db).0 ≡ ok tt
      → unless_short f short email password (unless_short f short email password db).1
        ≡ (ok tt, (unless_short f short email password db).1)
  short_settles true email password db h = absurd (ground arith)
  short_settles false email password db h =
      let (user, there) = found_settles email password (find_user_by_email email db) db refl h in
      ap (λ found. unless_found f email password found (unless_short f false email password db).1)
        there

  account_settles :
      (email password : Option Text) (db : Db)
      → (ensure_account f email password db).0 ≡ ok tt
      → ensure_account f email password (ensure_account f email password db).1
        ≡ (ok tt, (ensure_account f email password db).1)
  account_settles none password db h = refl
  account_settles (some email) none db h = refl
  account_settles (some email) (some password) db h =
      short_settles (ltb (length password) min_password_len) email password db h

  -- Where created accounts are found: once this has succeeded, doing it again in the same
  -- environment succeeds and leaves the database as it is, so that a restart makes no second account
  -- and resets no password.
  ensure_first_administrator-again :
      (env : Env) (db : Db)
      → (ensure_first_administrator f env db).0 ≡ ok tt
      → ensure_first_administrator f env (ensure_first_administrator f env db).1
        ≡ (ok tt, (ensure_first_administrator f env db).1)
  unfolding ensure_first_administrator
  ensure_first_administrator-again env db h =
      account_settles (to_option (required env (codes "ADMIN_EMAIL")))
        (to_option (required env (codes "ADMIN_PASSWORD"))) db h
