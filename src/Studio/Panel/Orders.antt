-- ===== src/Studio/Panel/Orders.antt =====
-- crates/hemsidor24-admin/src/models.rs: the panel's page of the orders.
use hemsidor.Prelude.{some, List, [], ◌∷◌}
use hemsidor.Text.{Text, codes}
use hemsidor.Studio.Models.{Order}
use hemsidor.Studio.Panel.{Value, number, text, optional_text, moment, key, ModelAdmin}

-- `Order`, with its attributes.
unfoldable pub order_columns : Order → List (Text × Value)
order_columns order =
    (codes "id", number order.id)
    ∷ (codes "company", text order.company)
    ∷ (codes "city", text order.city)
    ∷ (codes "phone", text order.phone)
    ∷ (codes "email", text order.email)
    ∷ (codes "services", text order.services)
    ∷ (codes "style", text order.style)
    ∷ (codes "package", text order.«package»)
    ∷ (codes "status", text order.status)
    ∷ (codes "received_at", moment (some order.received_at))
    ∷ (codes "ip_hash", optional_text order.ip_hash)
    ∷ (codes "user_agent", optional_text order.user_agent)
    ∷ (codes "notified_at", moment order.notified_at)
    ∷ (codes "customer_id", key order.customer_id)
    ∷ []

unfoldable pub order_choices : List (Text × List Text)
order_choices =
    (
      codes "style",
      codes "klassisk"
          ∷ codes "modern"
          ∷ codes "djarv"
          ∷ codes "student"
          ∷ codes "forening"
          ∷ codes "overraska-mig"
          ∷ [],
    )
    ∷ (codes "package", codes "start" ∷ codes "pro" ∷ [])
    ∷ (
      codes "status",
      codes "ny"
          ∷ codes "utkast_skickat"
          ∷ codes "godkand"
          ∷ codes "publicerad"
          ∷ codes "avbruten"
          ∷ [],
    )
    ∷ []

-- `readonly_fields`
unfoldable pub readonly_fields : List Text
readonly_fields =
    codes "company"
    ∷ codes "city"
    ∷ codes "phone"
    ∷ codes "email"
    ∷ codes "services"
    ∷ codes "style"
    ∷ codes "package"
    ∷ codes "received_at"
    ∷ codes "ip_hash"
    ∷ codes "user_agent"
    ∷ codes "notified_at"
    ∷ []

-- `impl ModelAdmin for Order`, less its actions.
unfoldable pub order_admin : ModelAdmin Order
order_admin = record {
  columns = order_columns;
  choices = order_choices;
  list_display =
      codes "company" ∷ codes "city" ∷ codes "package" ∷ codes "status" ∷ codes "received_at" ∷ [];
  list_filter = some (codes "status" ∷ codes "package" ∷ codes "style" ∷ []);
  search_fields =
      codes "company" ∷ codes "city" ∷ codes "email" ∷ codes "phone" ∷ codes "services" ∷ [];
  ordering = codes "-received_at" ∷ [];
  readonly_fields = some readonly_fields;
}
