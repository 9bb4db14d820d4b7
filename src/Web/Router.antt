-- ===== src/Web/Router.antt =====
-- crates/hemsidor24-web/src/routes.rs: every route the server answers, and the limit on orders. The
-- rate limiter, the file service and what the framework answers by itself are parameters.
pub mod Guarded
use hemsidor.Prelude.{
  ℕ, Bool, true, false, ◌||◌, Option, none, some, Result, ok, err, if◌then◌else◌,
}
use hemsidor.Text.{Text, codes, text_eq}
use hemsidor.Text.Match.{starts_with}
use hemsidor.Web.Form.{OrderSubmission, FormView}
use hemsidor.Web.Orders.{Backend, Service, RequestMeta}
use hemsidor.Web.Routes.{AppState, Response, submit_order, index, health, into_response}

-- `RATE_LIMIT_BURST`
abbrev pub rate_limit_burst : ℕ
rate_limit_burst = 5

-- `RATE_LIMIT_PER_SECONDS`
abbrev pub rate_limit_per_seconds : ℕ
rate_limit_per_seconds = 60

pub data Method : Type 0 where
  get post : Method
  another : Text → Method

-- What the handlers take of a request; `form` is nothing where the body is no form.
pub record Request : Type 0 where
  pub method : Method
  pub path : Text
  pub peer : Text
  pub user_agent : Option Text
  pub forwarded_for : Option Text
  pub form : Option OrderSubmission

pub record Reply : Type 0 where
  pub status : ℕ
  pub body : Text
  pub cache_control : Option Text

-- What is used of tower_governor, tower_http and axum.
pub record Libraries : Type 1 where
  pub Limiter : Type 0
  -- `GovernorConfigBuilder`, by the seconds for one request more and the size of a burst.
  pub finish : (per_second burst_size : ℕ) → Option Limiter
  -- Whether the request is let through, by its client.
  pub admit : Request → Limiter → Bool × Limiter
  pub too_many : Request → Reply
  -- `ServeDir`
  pub serve_dir : Request → Reply
  -- A path or a method that no route has, or a body that is no form.
  pub unmatched : Request → Reply

-- `RateLimitConfigError`
pub data RateLimitConfigError : Type 0 where
  impossible : RateLimitConfigError

-- The arguments of the handler that come from the connection and the headers.
abbrev pub request_meta : Request → RequestMeta
request_meta r = record { ip = some r.peer; user_agent = r.user_agent }

-- `nest_service("/static", …)`
abbrev pub is_static : Text → Bool
is_static path = text_eq path (codes "/static") || starts_with path (codes "/static/")

-- `SetResponseHeaderLayer::overriding`
abbrev pub revalidated : Reply → Reply
revalidated reply = record reply { cache_control = some (codes "no-cache") }

module _ (b : Backend) (lib : Libraries) where
  pub record SiteState : Type 0 where
    pub service : Service b
    pub limiter : lib.Limiter

  module _ (state : AppState) (render : FormView → Bool → Option Text) where
    abbrev pub replied : Response → Reply
    replied response =
        let (status, body) = into_response render response in
        record { status = status; body = body; cache_control = none }

    -- `post(submit_order)`
    abbrev pub bestall :
        Method → Option OrderSubmission → Request → ℕ → Service b → Reply × Service b
    bestall post (some submission) r now s =
        let (response, after) = submit_order b state submission (request_meta r) now s in
        (replied response, after)
    bestall post none r now s = (lib.unmatched r, s)
    bestall get form r now s = (lib.unmatched r, s)
    bestall (another name) form r now s = (lib.unmatched r, s)

    -- `layer(GovernorLayer { … })`
    abbrev pub limited : Bool × lib.Limiter → Request → ℕ → Service b → Reply × SiteState
    limited (false, limiter) r now s = (lib.too_many r, record { service = s; limiter = limiter })
    limited (true, limiter) r now s =
        let (reply, after) = bestall r.method r.form r now s in
        (reply, record { service = after; limiter = limiter })

    -- The routes that only read.
    abbrev pub reading : Method → Request → ℕ → Reply
    reading get r now =
        if text_eq r.path (codes "/")
        then replied (index now)
        else if text_eq r.path (codes "/health")
        then replied health
        else lib.unmatched r
    reading post r now = lib.unmatched r
    reading (another name) r now = lib.unmatched r

    -- The router at work, at the moment `now`.
    unfoldable pub route : Request → ℕ → SiteState → Reply × SiteState
    route r now w =
        if is_static r.path
        then (revalidated (lib.serve_dir r), w)
        else if text_eq r.path (codes "/bestall")
        then limited (lib.admit r w.limiter) r now w.service
        else (reading r.method r now, w)

  -- `router`
  unfoldable pub router : Service b → Result RateLimitConfigError SiteState
  router service = limits (lib.finish rate_limit_per_seconds rate_limit_burst) service
    where
      limits : Option lib.Limiter → Service b → Result RateLimitConfigError SiteState
      limits none service = err impossible
      limits (some limiter) service = ok (record { service = service; limiter = limiter })
