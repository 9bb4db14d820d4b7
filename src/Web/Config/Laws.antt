-- ===== src/Web/Config/Laws.antt =====
-- When the server's configuration is accepted, and what a refusal says.
use hemsidor.Prelude.{
  ℕ, ◌≤◌, ◌≡◌, ◌≢◌, refl, ◌↔◌, ◌⊎◌, inl, inr, Option, none, some, ltb, ok, err, ok_injective, ok_or,
  >>=-ok, >>=-err, Bool-cases, arith,
}
use mathlib.Core.Path.{subst}
use hemsidor.Text.{Text, utf8_len}
use hemsidor.Text.Trim.{trim}
use hemsidor.Env.{Env, optional, parse_port, filled}
use hemsidor.Notify.Notifier.{SmtpConfig}
use hemsidor.Web.Config.{
  invalid, bind_addr, port_var, database_url_var, salt_var, smtp_port, required, required_value,
  port_or, smtp_from_env, Config, host_raw, read_host, read_port, check_salt, from_env,
  default_port, min_salt_len, redacted,
}
use hemsidor.Web.Config.Smtp.{PortIs, Describes, smtp_from_env-Describes}

required_iff : (env : Env) (var v : Text) → (required env var ≡ ok v) ↔ (optional env var ≡ some v)
unfolding required optional
required_iff env var v = read (env var)
  where
    read : (o : Option Text) → (required_value var o ≡ ok v) ↔ (filled o ≡ some v)
    read none = (λ h. absurd (ground arith), λ h. absurd (ground arith))
    read (some w) = (λ h. ground arith, λ h. ground arith)

ok_or_iff : {E A : Type 0} → (o : Option A) (e : E) (a : A) → (ok_or o e ≡ ok a) ↔ (o ≡ some a)
ok_or_iff none e a = (λ h. absurd (ground arith), λ h. absurd (ground arith))
ok_or_iff (some b) e a = (λ h. ground arith, λ h. ground arith)

port_or_iff :
    (default : ℕ) (var reason : Text) (raw : Option Text) (n : ℕ)
    → (port_or default var reason raw ≡ ok n) ↔ PortIs default raw n
port_or_iff default var reason none n = (
  λ h. inl (refl, ground arith),
  λ h. elim h [ inl e ↦ ground arith | inr (t, e, p) ↦ absurd (ground arith) ],
)
port_or_iff default var reason (some t) n = (
  λ h. inr (t, refl, (ok_or_iff (parse_port t) _ n).0 h),
  λ h. elim h [
    | inl e ↦ absurd (ground arith)
    | inr (u, e, p) ↦ (ok_or_iff (parse_port t) _ n).1 (ground arith)
  ],
)

check_salt_iff : (salt : Text) → (check_salt salt ≡ ok tt) ↔ (min_salt_len ≤ utf8_len salt)
unfolding check_salt
check_salt_iff salt = elim (Bool-cases (ltb (utf8_len salt) min_salt_len)) [
  | inl short ↦ rw short (λ h. absurd (ground arith), λ h. absurd (ground arith))
  | inr long ↦ rw long (λ h. ground arith, λ h. refl)
]

port_refused :
    (default : ℕ) (name explained : Text) (raw : Option Text) (var value reason : Text)
    → port_or default name explained raw ≡ err (invalid var value reason)
    → (var ≡ name) × (raw ≡ some value)
port_refused default name explained none var value reason h = absurd (ground arith)
port_refused default name explained (some t) var value reason h = ground arith

required_refused :
    (env : Env) (name var value reason : Text) → required env name ≢ err (invalid var value reason)
unfolding required
required_refused env name var value reason = read (env name)
  where
    read : (o : Option Text) → required_value name o ≢ err (invalid var value reason)
    read none h = ground arith
    read (some v) h = ground arith

salt_refused :
    (salt var value reason : Text)
    → check_salt salt ≡ err (invalid var value reason)
    → (var ≡ salt_var) × (value ≡ redacted)
unfolding check_salt
salt_refused salt var value reason h = ground arith

smtp_refused :
    (env : Env) (var value reason : Text)
    → smtp_from_env env ≡ err (invalid var value reason)
    → (var ≡ smtp_port) × (env smtp_port ≡ some value)
smtp_refused env var value reason h =
    let (set, named, held, bad) = subst (Describes env) h (smtp_from_env-Describes env) in
    (named, held)

module _ {IpAddr : Type 0} (parse_ip : Text → Option IpAddr) where
  -- The values that a configuration holds are those of the environment.
  abbrev Holds : Env → Config IpAddr → Type 0
  Holds env config =
      (parse_ip (trim (host_raw env)) ≡ some config.host)
      × PortIs default_port (env port_var) config.port
      × (optional env database_url_var ≡ some config.database_url)
      × (optional env salt_var ≡ some config.ip_hash_salt)
      × (min_salt_len ≤ utf8_len config.ip_hash_salt)
      × (smtp_from_env env ≡ ok config.smtp)

  read_parts :
      (env : Env) (host : IpAddr) (port : ℕ) (url salt : Text) (smtp : Option SmtpConfig)
      → read_host parse_ip env ≡ ok host
      → read_port env ≡ ok port
      → required env database_url_var ≡ ok url
      → required env salt_var ≡ ok salt
      → check_salt salt ≡ ok tt
      → smtp_from_env env ≡ ok smtp
      → Holds env (record {
        host = host;
        port = port;
        database_url = url;
        ip_hash_salt = salt;
        smtp = smtp;
      })
  unfolding read_host read_port
  read_parts env host port url salt smtp e0 e1 e2 e3 e4 e5 = (
    (ok_or_iff (parse_ip (trim (host_raw env))) _ host).0 e0,
    (port_or_iff default_port port_var _ (env port_var) port).0 e1,
    (required_iff env database_url_var url).0 e2,
    (required_iff env salt_var salt).0 e3,
    (check_salt_iff salt).0 e4,
    e5,
  )

  -- The server has a configuration exactly when BIND_ADDR, or 127.0.0.1, is an address, PORT is a
  -- port or is not set, the database's address is set, the salt is set to sixteen bytes or more, and
  -- the mail settings are accepted; it then holds those values.
  pub from_env_iff :
      (env : Env) (config : Config IpAddr)
      → (from_env parse_ip env ≡ ok config) ↔ (
          (parse_ip (trim (host_raw env)) ≡ some config.host)
          × PortIs default_port (env port_var) config.port
          × (optional env database_url_var ≡ some config.database_url)
          × (optional env salt_var ≡ some config.ip_hash_salt)
          × (min_salt_len ≤ utf8_len config.ip_hash_salt)
          × (smtp_from_env env ≡ ok config.smtp))
  unfolding from_env read_host read_port
  from_env_iff env config = (
    λ h.
        let (host, e0, h0) = >>=-ok (read_host parse_ip env) _ h in
        let (port, e1, h1) = >>=-ok (read_port env) _ h0 in
        let (url, e2, h2) = >>=-ok (required env database_url_var) _ h1 in
        let (salt, e3, h3) = >>=-ok (required env salt_var) _ h2 in
        let (done, e4, h4) = >>=-ok (check_salt salt) _ h3 in
        let (smtp, e5, h5) = >>=-ok (smtp_from_env env) _ h4 in
        subst (Holds env) (ok_injective _ config h5)
          (read_parts env host port url salt smtp e0 e1 e2 e3 e4 e5),
    λ (a0, a1, a2, a3, a4, a5).
        rw
          (
            (ok_or_iff (parse_ip (trim (host_raw env))) _ config.host).1 a0,
            (port_or_iff default_port port_var _ (env port_var) config.port).1 a1,
            (required_iff env database_url_var config.database_url).1 a2,
            (required_iff env salt_var config.ip_hash_salt).1 a3,
            (check_salt_iff config.ip_hash_salt).1 a4,
            a5,
          )
          refl,
  )

  -- A refusal for an invalid value shows what one of the three address and port variables holds, or
  -- a value that says nothing of the salt.
  pub from_env-reveals :
      (env : Env) (var value reason : Text)
      → from_env parse_ip env ≡ err (invalid var value reason)
      → ((var ≡ salt_var) × (value ≡ redacted))
        ⊎ (((var ≡ bind_addr) × (value ≡ host_raw env))
            ⊎ (((var ≡ port_var) × (env port_var ≡ some value))
                ⊎ ((var ≡ smtp_port) × (env smtp_port ≡ some value))))
  unfolding from_env read_host read_port
  from_env-reveals env var value reason h = elim (>>=-err (read_host parse_ip env) _ h) [
    | inl e ↦ inr (inl (ground arith))
    | inr (host, e0, h0) ↦ elim (>>=-err (read_port env) _ h0) [
      | inl e ↦ inr (inr (inl (port_refused _ _ _ (env port_var) var value reason e)))
      | inr (port, e1, h1) ↦ elim (>>=-err (required env database_url_var) _ h1) [
        | inl e ↦ absurd (required_refused env database_url_var var value reason e)
        | inr (url, e2, h2) ↦ elim (>>=-err (required env salt_var) _ h2) [
          | inl e ↦ absurd (required_refused env salt_var var value reason e)
          | inr (salt, e3, h3) ↦ elim (>>=-err (check_salt salt) _ h3) [
            | inl e ↦ inl (salt_refused salt var value reason e)
            | inr (done, e4, h4) ↦ elim (>>=-err (smtp_from_env env) _ h4) [
              | inl e ↦ inr (inr (inr (smtp_refused env var value reason e)))
              | inr (smtp, e5, h5) ↦ absurd (ground arith)
            ]
          ]
        ]
      ]
    ]
  ]
