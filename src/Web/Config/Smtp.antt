-- ===== src/Web/Config/Smtp.antt =====
-- What the server makes of its mail settings.
use hemsidor.Prelude.{
  ℕ, true, false, not, ◌≡◌, refl, ◌⊎◌, inl, inr, Option, none, some, filter, is_empty, length, ltb,
  All, FirstOf, filter_empty, filter_full, find_dropped, Bool-cases, Result, ok, err, ok_or, ◌>>=◌,
  is_some, is_none, arith,
}
use hemsidor.Text.{Text}
use hemsidor.Env.{Env, optional, parse_port, filled}
use hemsidor.Notify.Notifier.{SmtpConfig, default_smtp_port}
use hemsidor.Web.Config.{
  ConfigError, missing, invalid, smtp_vars, smtp_host, smtp_user, smtp_password, notify_to_var,
  notify_from_var, smtp_port, smtp_port_reason, required, required_value, port_or, smtp_settings,
  smtp_from_env,
}

-- The port that a variable gives, or the default where it is not set.
abbrev pub PortIs : ℕ → Option Text → ℕ → Type 0
PortIs default raw port =
    ((raw ≡ none) × (port ≡ default)) ⊎ ((t : Text) × (raw ≡ some t) × (parse_port t ≡ some port))

abbrev pub Unset : Env → Text → Type 0
Unset env v = is_some (optional env v) ≡ false

abbrev pub Set : Env → Text → Type 0
Set env v = is_some (optional env v) ≡ true

-- What each answer says of the environment.
abbrev pub Describes : Env → Result ConfigError (Option SmtpConfig) → Type 0
Describes env (ok none) = All (Unset env) smtp_vars
Describes env (ok (some smtp)) =
    (optional env smtp_host ≡ some smtp.host)
    × (optional env smtp_user ≡ some smtp.user)
    × (optional env smtp_password ≡ some smtp.password)
    × (optional env notify_to_var ≡ some smtp.notify_to)
    × (optional env notify_from_var ≡ some smtp.notify_from)
    × PortIs default_smtp_port (env smtp_port) smtp.port
Describes env (err (missing var)) =
    FirstOf (λ v. is_none (optional env v)) smtp_vars var
    × (is_empty (filter (λ v. is_some (optional env v)) smtp_vars) ≡ false)
Describes env (err (invalid var value reason)) =
    All (Set env) smtp_vars
    × (var ≡ smtp_port)
    × (env smtp_port ≡ some value)
    × (parse_port value ≡ none)

-- What a variable is set to, `required` reads.
pub required-optional :
    (env : Env) (var v : Text) → optional env var ≡ some v → required env var ≡ ok v
unfolding required optional
required-optional env var v h = read (env var) h
  where
    read : (o : Option Text) → filled o ≡ some v → required_value var o ≡ ok v
    read none h = cc
    read (some w) h = ground arith

held : (o : Option Text) → is_some o ≡ true → (v : Text) × (o ≡ some v)
held none h = cc
held (some v) h = (v, refl)

opposite : (o : Option Text) → is_none o ≡ not (is_some o)
opposite none = refl
opposite (some v) = refl

port_read :
    (default : ℕ) (var reason : Text) (raw : Option Text)
    → ((n : ℕ) × (port_or default var reason raw ≡ ok n) × PortIs default raw n)
      ⊎ ((t : Text) × (port_or default var reason raw ≡ err (invalid var t reason))
          × (raw ≡ some t)
          × (parse_port t ≡ none))
port_read default var reason none = inl (default, refl, inl (refl, refl))
port_read default var reason (some t) = read (parse_port t) refl
  where
    read :
        (o : Option ℕ)
        → parse_port t ≡ o
        → ((n : ℕ) × (ok_or o (invalid var t reason) ≡ ok n) × PortIs default (some t) n)
          ⊎ ((u : Text) × (ok_or o (invalid var t reason) ≡ err (invalid var u reason))
              × (some t ≡ some u)
              × (parse_port u ≡ none))
    read none h = inr (t, refl, refl, h)
    read (some n) h = inl (n, refl, inr (t, refl, h))

settings-Describes :
    (env : Env)
    → All (Set env) smtp_vars
    → Describes env (smtp_settings env >>= λ smtp. ok (some smtp))
unfolding smtp_settings
settings-Describes env set =
    let (s0, (s1, (s2, (s3, (s4, u))))) = set in
    let (host, h0) = held (optional env smtp_host) s0 in
    let (user, h1) = held (optional env smtp_user) s1 in
    let (password, h2) = held (optional env smtp_password) s2 in
    let (to, h3) = held (optional env notify_to_var) s3 in
    let (from, h4) = held (optional env notify_from_var) s4 in
    elim (port_read default_smtp_port smtp_port smtp_port_reason (env smtp_port)) [
      | inl (port, e, p) ↦
          rw
            (
              e,
              required-optional env smtp_host host h0,
              required-optional env smtp_user user h1,
              required-optional env smtp_password password h2,
              required-optional env notify_to_var to h3,
              required-optional env notify_from_var from h4,
            )
            (h0, h1, h2, h3, h4, p)
      | inr (t, e, raw, bad) ↦ rw e (set, refl, raw, bad)
    ]

-- Mail is left out exactly when none of the five variables is set; settings are the values of all
-- five with the port that SMTP_PORT gives, or 587; a missing variable is the first of the five that
-- is not set while another is; and an invalid one is SMTP_PORT, set to no port, where all five are set.
pub smtp_from_env-Describes : (env : Env) → Describes env (smtp_from_env env)
unfolding smtp_from_env
smtp_from_env-Describes env =
    let present = filter (λ v. is_some (optional env v)) smtp_vars in
    elim (Bool-cases (is_empty present)) [
      | inl none_set ↦ rw none_set (filter_empty (λ v. is_some (optional env v)) smtp_vars none_set)
      | inr some_set ↦ elim (Bool-cases (ltb (length present) (length smtp_vars))) [
        | inl dropped ↦
            rw (some_set, dropped)
              (
                find_dropped (λ v. is_some (optional env v)) (λ v. is_none (optional env v))
                    smtp_host smtp_vars (λ v. opposite (optional env v)) dropped,
                some_set,
              )
        | inr full ↦
            rw (some_set, full)
              (settings-Describes env (filter_full (λ v. is_some (optional env v)) smtp_vars full))
      ]
    ]
