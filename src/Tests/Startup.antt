-- ===== src/Tests/Startup.antt =====
-- The theorems on configuration and startup in an environment with everything set, and on a machine
-- with one account and one cell.
use hemsidor.Prelude.{
  ℕ, ◌≤◌, ◌≡◌, ◌↔◌, ◌⊎◌, refl, true, false, is_some, Option, none, some, List, [], ◌∷◌, ok, err,
  if◌then◌else◌,
}
use hemsidor.Text.{Text, codes, text_eq, text_eq_refl, is_whitespace, is_ascii_digit, utf8_len}
use hemsidor.Text.Trim.{trim, trim_start, trim_end}
use hemsidor.Text.Decimal.{parse_unsigned}
use hemsidor.Env.{Env, optional, parse_port}
use hemsidor.Notify.Notifier.{SmtpConfig, Lettre, connect}
use hemsidor.Web.Config.{
  invalid, Config, from_env, smtp_from_env, smtp_settings, required, read_host, read_port, host_raw,
  port_var, database_url_var, salt_var, bind_addr, smtp_port, redacted, min_salt_len, default_port,
}
use hemsidor.Web.Config.Smtp.{PortIs, Describes, smtp_from_env-Describes}
use hemsidor.Web.Config.Laws.{from_env_iff, from_env-reveals}
use hemsidor.Web.Start.{Postage, postage}
use hemsidor.Studio.Mailer.{init}
use hemsidor.Studio.Mailer.Agrees.{SameMail, init-postage}
use hemsidor.Studio.Startup
use hemsidor.Studio.Startup.{Disks, Accounts}
use hemsidor.Studio.Startup.Cell
use hemsidor.Studio.Startup.Cell.{cell_dir, init_var, check}
use hemsidor.Studio.Startup.Cell.Laws.{IsDisks, init-Opens}
use hemsidor.Studio.Startup.Administrator.{IsAccounts, ensure_first_administrator}
use hemsidor.Studio.Startup.Main.{Framework, Machine, main}
use hemsidor.Studio.Startup.Main.Ready.{only_test, Checked, main-Checked}

-- What each variable is set to.
abbrev lookup : List (Text × Text) → Env
lookup [] var = none
lookup ((name, value) ∷ rest) var = if text_eq name var then some value else lookup rest var

abbrev settings : List (Text × Text)
settings =
    (codes "SMTP_HOST", codes "post.se")
    ∷ (codes "SMTP_USER", codes "u")
    ∷ (codes "SMTP_PASSWORD", codes "p")
    ∷ (codes "NOTIFY_TO", codes "t@h.se")
    ∷ (codes "NOTIFY_FROM", codes "f@h.se")
    ∷ (codes "SMTP_PORT", codes " 25")
    ∷ (codes "DATABASE_URL", codes "pg")
    ∷ (codes "IP_HASH_SALT", codes "0123456789abcdef")
    ∷ (codes "HANDOVER_CELL_DIR", codes "/cell")
    ∷ (codes "ADMIN_EMAIL", codes "a@h.se")
    ∷ (codes "ADMIN_PASSWORD", codes "lösenord1234")
    ∷ []

abbrev env : Env
env = lookup settings

abbrev smtp : SmtpConfig
smtp = record {
  host = codes "post.se";
  port = 25;
  user = codes "u";
  password = codes "p";
  notify_to = codes "t@h.se";
  notify_from = codes "f@h.se";
}

smtp_from_env-Describes_example : Describes env (smtp_from_env env)
smtp_from_env-Describes_example = smtp_from_env-Describes env

env_smtp : smtp_from_env env ≡ ok (some smtp)
unfolding smtp_from_env smtp_settings required optional parse_port trim trim_start trim_end
    parse_unsigned is_whitespace is_ascii_digit text_eq
env_smtp = refl

-- An address is any text.
abbrev any_ip : Text → Option Text
any_ip t = some t

abbrev config : Config Text
config = record {
  host = codes "127.0.0.1";
  port = 3000;
  database_url = codes "pg";
  ip_hash_salt = codes "0123456789abcdef";
  smtp = some smtp;
}

from_env_iff_example : (from_env any_ip env ≡ ok config) ↔ (
    (any_ip (trim (host_raw env)) ≡ some config.host)
    × PortIs default_port (env port_var) config.port
    × (optional env database_url_var ≡ some config.database_url)
    × (optional env salt_var ≡ some config.ip_hash_salt)
    × (min_salt_len ≤ utf8_len config.ip_hash_salt)
    × (smtp_from_env env ≡ ok config.smtp))
from_env_iff_example = from_env_iff any_ip env config

abbrev bad_port : Env
bad_port = lookup ((codes "PORT", codes "800O") ∷ settings)

port_refused :
    from_env any_ip bad_port
    ≡ err
        (invalid (codes "PORT") (codes "800O") (codes "expected a port number between 1 and 65535"))
unfolding from_env read_host read_port parse_port trim trim_start trim_end parse_unsigned
    is_whitespace is_ascii_digit text_eq
port_refused = refl

from_env-reveals_example :
    ((codes "PORT" ≡ salt_var) × (codes "800O" ≡ redacted))
    ⊎ (((codes "PORT" ≡ bind_addr) × (codes "800O" ≡ host_raw bad_port))
        ⊎ (((codes "PORT" ≡ port_var) × (bad_port port_var ≡ some (codes "800O")))
            ⊎ ((codes "PORT" ≡ smtp_port) × (bad_port smtp_port ≡ some (codes "800O")))))
from_env-reveals_example =
    from_env-reveals any_ip bad_port (codes "PORT") (codes "800O")
      (codes "expected a port number between 1 and 65535") port_refused

-- A mail library that takes every host.
abbrev any_post : Lettre
any_post = record {
  Mailbox = Text;
  Email = Text;
  Relay = Text;
  Transport = Text × ℕ × Text × Text;
  parse = λ t. some t;
  assemble = λ from to reply subject body. some body;
  starttls_relay = λ host. some host;
  transport = λ relay port user password. (relay, port, user, password);
  deliver = λ t e. true;
}

abbrev sends : Postage any_post
sends = record {
  notifier = some (record { transport = (codes "post.se", 25, codes "u", codes "p") });
  notify_to = codes "t@h.se";
  notify_from = codes "f@h.se";
}

site_sends : postage any_post (some smtp) ≡ ok sends
unfolding postage connect
site_sends = refl

init-postage_example : SameMail any_post (init any_post env) sends
init-postage_example = init-postage any_post env (some smtp) sends env_smtp site_sends

-- A disk with one cell, or none; it opens whatever the path.
abbrev one_disk : Disks
one_disk = record {
  Disk = Option ℕ;
  CellStudio = ℕ;
  open_cell = λ path disk. disk;
  create_cell = λ path disk. (some 1, some 1);
  write_probe = λ path disk. (true, disk);
  remove_probe = λ path disk. disk;
}

one_disk-IsDisks : IsDisks one_disk
one_disk-IsDisks = record {
  created_opens = λ path disk studio h. h;
  probe_keeps = λ path other disk. (refl, refl);
}

cell_ready : (Cell.init one_disk true env (some 7)).0 ≡ ok tt
unfolding Cell.init check cell_dir optional trim trim_start trim_end is_whitespace text_eq
cell_ready = refl

init-Opens_example :
    (path : Text) × (studio : ℕ) × (cell_dir one_disk env ≡ some path)
    × (one_disk.open_cell path (Cell.init one_disk true env (some 7)).1 ≡ some studio)
    × ((one_disk.open_cell path (some 7) ≡ some studio)
        ⊎ ((is_some (optional env init_var) ≡ true) × (one_disk.open_cell path (some 7) ≡ none)))
init-Opens_example = init-Opens one_disk one_disk-IsDisks env (some 7) cell_ready

abbrev listed : Text → List Text → Option Text
listed email [] = none
listed email (known ∷ rest) = if text_eq known email then some known else listed email rest

-- The accounts' addresses.
abbrev book : Accounts
book = record {
  Db = List Text;
  User = Text;
  Role = Unit {0};
  administrator = tt;
  connect_db = λ url db. ok tt;
  init_tables = λ db. (ok tt, db);
  ensure_table = λ db. (ok tt, db);
  find_user_by_email = λ email db. ok (listed email db);
  create_user = λ email password role db. (ok 1, email ∷ db);
}

book-IsAccounts : IsAccounts book
book-IsAccounts = record {
  created_found = λ email password db id h. (email, rw (text_eq_refl email) refl);
}

first_made : (ensure_first_administrator book env []).0 ≡ ok tt
unfolding ensure_first_administrator Startup.required trim trim_start trim_end is_whitespace text_eq
first_made = refl

abbrev plain : Framework
plain = record { IpAddr = Text; parse_ip = any_ip; templates = ok tt }

abbrev machine : Machine one_disk book
machine = record { disk = some 7; db = [] }

main-Checked_example :
    ((only_test [] ≡ true) × ((main one_disk book plain any_post true [] env machine).1 ≡ machine))
    ⊎ ((only_test [] ≡ false)
        × (((main one_disk book plain any_post true [] env machine).1.db ≡ [])
            ⊎ Checked one_disk book plain any_post true env machine))
main-Checked_example = main-Checked one_disk book plain any_post true [] env machine
