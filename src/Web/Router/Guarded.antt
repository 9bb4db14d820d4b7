-- ===== src/Web/Router/Guarded.antt =====
-- What a request can change.
use hemsidor.Prelude.{ℕ, Bool, true, false, ◌≡◌, ◌⊎◌, Option, some}
use hemsidor.Text.{Text, codes, text_eq}
use hemsidor.Web.Form.{OrderSubmission, FormView}
use hemsidor.Web.Orders.{Backend}
use hemsidor.Web.Routes.{AppState, submit_order}
use hemsidor.Web.Router.{post, Request, Reply, Libraries, request_meta, is_static, SiteState}

module _ (b : Backend) (lib : Libraries) (state : AppState) (render : FormView → Bool → Option Text)
    (r : Request) (now : ℕ) where
  -- The request hands in an order, and is let through.
  pub record Ordered (w v : SiteState b lib) : Type 0 where
    pub submission : OrderSubmission
    pub path : text_eq r.path (codes "/bestall") ≡ true
    pub method : r.method ≡ post
    pub form : r.form ≡ some submission
    pub admitted : (lib.admit r w.limiter).0 ≡ true
    pub handled : v.service ≡ (submit_order b state submission (request_meta r) now w.service).1

  pub record Guarded (w : SiteState b lib) (reply : Reply) (v : SiteState b lib) : Type 0 where
    pub fresh : is_static r.path ≡ true → reply.cache_control ≡ some (codes "no-cache")
    pub ordered : (v.service ≡ w.service) ⊎ Ordered w v
    pub counted : (v ≡ w) ⊎ (v.limiter ≡ (lib.admit r w.limiter).1)
    pub uncounted : text_eq r.path (codes "/bestall") ≡ false → v ≡ w
