-- ===== src/Studio/Startup/Main.antt =====
-- crates/hemsidor24-admin/src/main.rs: `main`, up to the server that waits for requests.
pub mod Ready
use hemsidor.Prelude.{
  ℕ, Bool, true, false, ◌≡◌, ◌≢◌, refl, ◌⊎◌, inl, inr, Option, none, some, List, any, Result, ok,
  err, map_err, ok_or, some_or, Result-cases, if◌then◌else◌, arith,
}
use hemsidor.Text.{Text, codes, text_eq}
use hemsidor.Text.Trim.{trim}
use hemsidor.Env.{Env, parse_port}
use hemsidor.Notify.Notifier.{Lettre}
use hemsidor.Studio.Mailer
use hemsidor.Studio.Mailer.{Mailer, TestRefusal, send_test_message}
use hemsidor.Studio.Startup.{StartupError, invalid, admin_error, required, Disks, Accounts}
use hemsidor.Studio.Startup.Cell
use hemsidor.Studio.Startup.Administrator.{ensure_first_administrator}

-- What the back office starts on, beside the disks and the accounts.
pub record Framework : Type 1 where
  pub IpAddr : Type 0
  pub parse_ip : Text → Option IpAddr
  -- `Templates::new(None)`
  pub templates : Result Text (Unit {0})

-- The disk and the database.
pub record Machine (d : Disks) (f : Accounts) : Type 0 where
  pub disk : d.Disk
  pub db : f.Db

-- A run ends with a test message that was sent, or with the server listening.
pub data Outcome (IpAddr : Type 0) (l : Lettre) : Type 0 where
  test_sent : Outcome IpAddr l
  listening : (host : IpAddr) (port : ℕ) (mail : Mailer l) → Outcome IpAddr l

abbrev pub panel_host_raw : Option Text → Text
panel_host_raw set = some_or (codes "127.0.0.1") set

abbrev pub panel_host : {A : Type 0} → (Text → Option A) → Env → Result StartupError A
panel_host parse_ip env =
    ok_or (parse_ip (trim (panel_host_raw (env (codes "ADMIN_BIND_ADDR")))))
      (invalid (codes "ADMIN_BIND_ADDR") (codes "expected an IP address such as 127.0.0.1"))

abbrev pub panel_port : Option Text → Result StartupError ℕ
panel_port none = ok 3001
panel_port (some raw) =
    ok_or (parse_port raw)
      (invalid (codes "ADMIN_PORT") (codes "expected a port number between 1 and 65535"))

module _ (d : Disks) (f : Accounts) where
  -- A step of the start, which may change the disk and the database and may refuse.
  abbrev pub Stage : Type 0 → Type 0
  Stage A = Machine d f → Result StartupError A × Machine d f

-- What the framework answers, its error passed on.
abbrev pub admin : {A B : Type 0} → Result Text A × B → Result StartupError A × B
admin (result, db) = (map_err admin_error result, db)

module _ {d : Disks} {f : Accounts} where
  infixl 5 ◌>>=◌ ◌>>◌
  abbrev pub continue : {A B : Type 0} → (A → Stage d f B) → Result StartupError A → Stage d f B
  continue k (ok a) m = k a m
  continue k (err e) m = (err e, m)

  abbrev pub ◌>>=◌ : {A B : Type 0} → Stage d f A → (A → Stage d f B) → Stage d f B
  ◌>>=◌ step k m = continue k (step m).0 (step m).1

  abbrev pub ◌>>◌ : {B : Type 0} → Stage d f (Unit {0}) → Stage d f B → Stage d f B
  step >> k = step >>= λ _. k

  -- `?` on what was read without a change.
  abbrev pub lift : {A : Type 0} → Result StartupError A → Stage d f A
  lift result m = (result, m)

  abbrev pub on_disk : {A : Type 0} → (d.Disk → Result StartupError A × d.Disk) → Stage d f A
  on_disk run m = let (result, disk) = run m.disk in (result, record m { disk = disk })

  abbrev pub on_db : {A : Type 0} → (f.Db → Result StartupError A × f.Db) → Stage d f A
  on_db run m = let (result, db) = run m.db in (result, record m { db = db })

module _ (d : Disks) (f : Accounts) (w : Framework) (l : Lettre) where
  -- Everything that touches the database.
  unfoldable pub on_database : Env → Text → Stage d f (Unit {0})
  on_database env database_url = do
    on_db (λ db. admin (f.connect_db database_url db, db))
    on_db (λ db. admin (f.init_tables db))
    on_db (λ db. admin (f.ensure_table db))
    on_db (ensure_first_administrator f env)

  -- `main` without the flag; `handover` says that signing is compiled in.
  unfoldable pub run : Bool → Env → Stage d f (Outcome w.IpAddr l)
  run handover env = do
    on_disk (Cell.init d handover env)
    database_url ← lift (required env (codes "DATABASE_URL"))
    host ← lift (panel_host w.parse_ip env)
    port ← lift (panel_port (env (codes "ADMIN_PORT")))
    on_database env database_url
    lift (map_err admin_error w.templates)
    lift (ok (listening host port (Mailer.init l env)))

  abbrev pub tested : Result TestRefusal (Unit {0}) → Result StartupError (Outcome w.IpAddr l)
  tested (ok u) = ok test_sent
  tested (err reason) = err (
      invalid (codes "SMTP_HOST")
        (codes "the configured SMTP server did not accept a test message"))

  -- `main`
  unfoldable pub main : Bool → List Text → Env → Stage d f (Outcome w.IpAddr l)
  main handover args env m =
      if any (λ a. text_eq a (codes "--send-test-mail")) args
      then (tested (send_test_message l env), m)
      else run handover env m
