-- ===== src/Web/Config.antt =====
-- crates/hemsidor24-web/src/config.rs: the server's configuration, read from the environment. The
-- standard library's reader of IP addresses is a parameter.
pub mod Smtp
pub mod Laws
use hemsidor.Prelude.{
  ℕ, Bool, not, ◌≡◌, Option, none, some, List, [], ◌∷◌, filter, find, is_empty, length, ltb,
  if◌then◌else◌, Result, ok, err, ok_or, ◌>>=◌, ◌>>◌, is_some, is_none, some_or,
}
use hemsidor.Text.{Text, codes, utf8_len}
use hemsidor.Text.Trim.{trim}
use hemsidor.Env.{Env, optional, parse_port}
use hemsidor.Notify.Notifier.{SmtpConfig, default_smtp_port}

-- `ConfigError`
pub data ConfigError : Type 0 where
  missing : (var : Text) → ConfigError
  invalid : (var value reason : Text) → ConfigError

-- The names of the variables.
abbrev pub bind_addr : Text
bind_addr = codes "BIND_ADDR"

abbrev pub port_var : Text
port_var = codes "PORT"

abbrev pub database_url_var : Text
database_url_var = codes "DATABASE_URL"

abbrev pub salt_var : Text
salt_var = codes "IP_HASH_SALT"

abbrev pub smtp_host : Text
smtp_host = codes "SMTP_HOST"

abbrev pub smtp_user : Text
smtp_user = codes "SMTP_USER"

abbrev pub smtp_password : Text
smtp_password = codes "SMTP_PASSWORD"

abbrev pub notify_to_var : Text
notify_to_var = codes "NOTIFY_TO"

abbrev pub notify_from_var : Text
notify_from_var = codes "NOTIFY_FROM"

abbrev pub smtp_port : Text
smtp_port = codes "SMTP_PORT"

-- `vars` of `smtp_from_env`
abbrev pub smtp_vars : List Text
smtp_vars = smtp_host ∷ smtp_user ∷ smtp_password ∷ notify_to_var ∷ notify_from_var ∷ []

abbrev pub required_value : Text → Option Text → Result ConfigError Text
required_value var none = err (missing var)
required_value var (some v) = if not (is_empty (trim v)) then ok v else err (missing var)

-- `required`
unfoldable pub required : Env → Text → Result ConfigError Text
required env var = required_value var (env var)

-- A port, or the default where the variable is not set.
abbrev pub port_or : ℕ → Text → Text → Option Text → Result ConfigError ℕ
port_or default var reason none = ok default
port_or default var reason (some raw) = ok_or (parse_port raw) (invalid var raw reason)

abbrev pub smtp_port_reason : Text
smtp_port_reason = codes "expected a port number; 587 for STARTTLS submission"

-- The settings, once all five variables are set.
unfoldable pub smtp_settings : Env → Result ConfigError SmtpConfig
unfolding required
smtp_settings env = do
  port ← port_or default_smtp_port smtp_port smtp_port_reason (env smtp_port)
  host ← required env smtp_host
  user ← required env smtp_user
  password ← required env smtp_password
  to ← required env notify_to_var
  from ← required env notify_from_var
  ok (record {
    host = host;
    port = port;
    user = user;
    password = password;
    notify_to = to;
    notify_from = from;
  })

-- `smtp_from_env`
unfoldable pub smtp_from_env : Env → Result ConfigError (Option SmtpConfig)
smtp_from_env env =
    let present = filter (λ v. is_some (optional env v)) smtp_vars in
    if is_empty present
    then ok none
    else if ltb (length present) (length smtp_vars)
    then err (missing (some_or smtp_host (find (λ v. is_none (optional env v)) smtp_vars)))
    else (smtp_settings env >>= λ smtp. ok (some smtp))

-- `Config`, its address as the two parts of a `SocketAddr`.
pub record Config (IpAddr : Type 0) : Type 0 where
  pub host : IpAddr
  pub port : ℕ
  pub database_url : Text
  pub ip_hash_salt : Text
  pub smtp : Option SmtpConfig

-- `MIN_SALT_LEN`
abbrev pub min_salt_len : ℕ
min_salt_len = 16

-- `DEFAULT_PORT`
abbrev pub default_port : ℕ
default_port = 3000

abbrev pub redacted : Text
redacted = codes "<redacted>"

abbrev pub host_raw : Env → Text
host_raw env = some_or (codes "127.0.0.1") (env bind_addr)

unfoldable pub read_port : Env → Result ConfigError ℕ
read_port env =
    port_or default_port port_var (codes "expected a port number between 1 and 65535")
      (env port_var)

unfoldable pub check_salt : Text → Result ConfigError (Unit {0})
check_salt salt =
    if ltb (utf8_len salt) min_salt_len
    then err (
        invalid salt_var redacted
          (codes "expected at least 16 characters; generate one with `openssl rand -hex 32`"))
    else ok tt

module _ {IpAddr : Type 0} (parse_ip : Text → Option IpAddr) where
  unfoldable pub read_host : Env → Result ConfigError IpAddr
  read_host env = ok_or (parse_ip (trim (host_raw env))) (
      invalid bind_addr (host_raw env)
        (codes "expected an IP address such as 127.0.0.1 or 0.0.0.0"))

  -- `Config::from_env`
  unfoldable pub from_env : Env → Result ConfigError (Config IpAddr)
  from_env env = do
    host ← read_host env
    port ← read_port env
    database_url ← required env database_url_var
    salt ← required env salt_var
    check_salt salt
    smtp ← smtp_from_env env
    ok (record {
      host = host;
      port = port;
      database_url = database_url;
      ip_hash_salt = salt;
      smtp = smtp;
    })
