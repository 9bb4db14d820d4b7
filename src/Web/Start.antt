-- ===== src/Web/Start.antt =====
-- crates/hemsidor24-web/src/main.rs: what stands between the environment and a server that serves.
-- The database, its migrations, the rate limiter and the socket are parameters.
pub mod Serves
use hemsidor.Prelude.{
  ℕ, Bool, Option, none, some, Result, ok, err, map_err, ◌>>=◌, ◌>>◌, if◌then◌else◌,
}
use hemsidor.Text.{Text, codes}
use hemsidor.Env.{Env}
use hemsidor.Notify.Notifier.{NotifyError, SmtpConfig, Lettre, SmtpNotifier, connect}
use hemsidor.Web.Config.{ConfigError, Config, from_env}
use hemsidor.Web.Routes.{AppState}

-- `StartupError`, less what stops a server that has started.
pub data StartupError : Type 0 where
  config_error : ConfigError → StartupError
  database migrations : Text → StartupError
  rate_limit : StartupError
  not_bound : Text → StartupError

-- What the program starts with.
pub record Platform : Type 1 where
  pub IpAddr : Type 0
  pub Pool : Type 0
  pub Listener : Type 0
  pub parse_ip : Text → Option IpAddr
  pub connect_pool : Text → Result Text Pool
  pub migrate : Pool → Result Text (Unit {0})
  -- Whether the rate limiter takes the numbers that the router gives it.
  pub limits_ok : Bool
  pub bind : IpAddr → ℕ → Result Text Listener

-- Who sends, none for the recorder, and the addresses: where orders are told, and from where.
pub record Postage (l : Lettre) : Type 0 where
  pub notifier : Option (SmtpNotifier l)
  pub notify_to : Text
  pub notify_from : Text

module _ (l : Lettre) where
  abbrev pub with_smtp :
      SmtpConfig → Result NotifyError (SmtpNotifier l) → Result StartupError (Postage l)
  with_smtp smtp (err e) = err rate_limit
  with_smtp smtp (ok notifier) = ok (record {
    notifier = some notifier;
    notify_to = smtp.notify_to;
    notify_from = smtp.notify_from;
  })

  -- The `match` on `config.smtp`.
  unfoldable pub postage : Option SmtpConfig → Result StartupError (Postage l)
  postage (some smtp) = with_smtp smtp (connect l smtp)
  postage none = ok (record {
    notifier = none;
    notify_to = codes "hej@hemsidor24.se";
    notify_from = codes "hej@hemsidor24.se";
  })

module _ (p : Platform) (l : Lettre) where
  -- The server as it serves.
  pub record Serving : Type 0 where
    pub listener : p.Listener
    pub pool : p.Pool
    pub notifier : Option (SmtpNotifier l)
    pub state : AppState

  -- `serve`, until it waits for requests.
  unfoldable pub serve : Config p.IpAddr → p.Pool → Postage l → Result StartupError Serving
  serve config pool post = do
    if p.limits_ok then ok tt else err rate_limit
    listener ← map_err not_bound (p.bind config.host config.port)
    ok (record {
      listener = listener;
      pool = pool;
      notifier = post.notifier;
      state = record {
        notify_to = post.notify_to;
        notify_from = post.notify_from;
        ip_hash_salt = config.ip_hash_salt;
      };
    })

  -- `main`
  unfoldable pub start : Env → Result StartupError Serving
  start env = do
    config ← map_err config_error (from_env p.parse_ip env)
    pool ← map_err database (p.connect_pool config.database_url)
    map_err migrations (p.migrate pool)
    post ← postage l config.smtp
    serve config pool post
