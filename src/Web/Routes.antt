-- ===== src/Web/Routes.antt =====
-- crates/hemsidor24-web/src/routes.rs: the handler of a submitted order form. The clock, the peer's
-- address and the user agent are arguments; the page is what its template is given.
pub mod Laws
use hemsidor.Prelude.{ℕ, Bool, true, false, Option, none, some, ok, err, Result, if◌then◌else◌}
use hemsidor.Text.{Text, codes}
use hemsidor.Core.Validation.{ValidationErrors}
use hemsidor.Core.Order.{Order, validate}
use hemsidor.Web.Spam.{is_spam, check}
use hemsidor.Web.Form.{OrderSubmission, to_core, FormView, blank_form, from_rejected}
use hemsidor.Web.Orders.{Backend, Service, StoreError, RequestMeta, store, notify}

-- `AppState`, less the pool and the notifier.
pub record AppState : Type 0 where
  pub notify_to : Text
  pub notify_from : Text
  pub ip_hash_salt : Text

pub data Response : Type 0 where
  page : (status : ℕ) (form : FormView) (sent : Bool) → Response
  plain : (status : ℕ) (text : Text) → Response

module _ (b : Backend) (state : AppState) where
  -- What follows the insert.
  abbrev pub after_store : Order → ℕ → Result StoreError ℕ → Service b → Response × Service b
  after_store order now_unix (err error) s = (
    plain 500 (
        codes
          "Något gick fel när beställningen skulle sparas. Försök igen, eller mejla hej@hemsidor24.se."),
    s,
  )
  after_store order now_unix (ok order_id) s = (
    page 200 (blank_form now_unix) true,
    notify b order order_id state.notify_to state.notify_from s,
  )

  -- What follows the validation.
  abbrev pub after_validate :
      OrderSubmission
      → RequestMeta
      → ℕ
      → Result ValidationErrors Order
      → Service b
      → Response × Service b
  after_validate submission meta now_unix (err errors) s =
      (page 422 (from_rejected submission errors now_unix) false, s)
  after_validate submission meta now_unix (ok order) s =
      after_store order now_unix (store b order meta state.ip_hash_salt s).0
        (store b order meta state.ip_hash_salt s).1

  -- `submit_order`
  unfoldable pub submit_order : OrderSubmission → RequestMeta → ℕ → Service b → Response × Service b
  submit_order submission meta now_unix s =
      if is_spam (check submission.webbplats submission.oppnad now_unix)
      then (page 200 (blank_form now_unix) true, s)
      else after_validate submission meta now_unix (validate (to_core submission)) s

-- `GET /`
unfoldable pub index : ℕ → Response
index now_unix = page 200 (blank_form now_unix) false

-- `GET /health`
unfoldable pub health : Response
health = plain 200 (codes "ok")

-- What the template made of the page: its status, or an error's.
abbrev pub rendered : ℕ → Option Text → ℕ × Text
rendered status (some html) = (status, html)
rendered status none = (500, codes "500 Internal Server Error")

-- `into_response`; the template is a parameter.
unfoldable pub into_response : (FormView → Bool → Option Text) → Response → ℕ × Text
into_response render (page status form sent) = rendered status (render form sent)
into_response render (plain status text) = (status, text)
