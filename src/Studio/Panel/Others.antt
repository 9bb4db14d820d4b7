-- ===== src/Studio/Panel/Others.antt =====
-- crates/hemsidor24-admin/src/models.rs: the panel's pages of the other four tables.
use hemsidor.Prelude.{none, some, List, [], ◌∷◌}
use hemsidor.Text.{Text, codes}
use hemsidor.Studio.Models.{Customer, Domain, Site, Delivery}
use hemsidor.Studio.Panel.{Value, number, text, optional_text, moment, key, flag, ModelAdmin}

-- `Customer`.
unfoldable pub customer_columns : Customer → List (Text × Value)
customer_columns row =
    (codes "id", number row.id)
    ∷ (codes "company", text row.company)
    ∷ (codes "city", text row.city)
    ∷ (codes "phone", text row.phone)
    ∷ (codes "email", text row.email)
    ∷ (codes "org_nr", optional_text row.org_nr)
    ∷ (codes "notes", optional_text row.notes)
    ∷ (codes "created_at", moment (some row.created_at))
    ∷ []

-- `impl ModelAdmin for Customer`.
unfoldable pub customer_admin : ModelAdmin Customer
customer_admin = record {
  columns = customer_columns;
  choices = [];
  list_display =
      codes "company" ∷ codes "city" ∷ codes "email" ∷ codes "phone" ∷ codes "created_at" ∷ [];
  list_filter = none;
  search_fields =
      codes "company" ∷ codes "city" ∷ codes "email" ∷ codes "phone" ∷ codes "org_nr" ∷ [];
  ordering = codes "-created_at" ∷ [];
  readonly_fields = none;
}

-- `Domain`, with its attribute.
unfoldable pub domain_columns : Domain → List (Text × Value)
domain_columns row =
    (codes "id", number row.id)
    ∷ (codes "customer_id", key row.customer_id)
    ∷ (codes "name", text row.name)
    ∷ (codes "registrar", optional_text row.registrar)
    ∷ (codes "registered_to", text row.registered_to)
    ∷ (codes "registered_at", moment row.registered_at)
    ∷ (codes "expires_at", moment row.expires_at)
    ∷ (codes "notes", optional_text row.notes)
    ∷ (codes "created_at", moment (some row.created_at))
    ∷ []

-- `impl ModelAdmin for Domain`: a renewal queue.
unfoldable pub domain_admin : ModelAdmin Domain
domain_admin = record {
  columns = domain_columns;
  choices = (codes "registered_to", codes "customer" ∷ codes "studio" ∷ []) ∷ [];
  list_display = codes "name" ∷ codes "registrar" ∷ codes "registered_to" ∷ codes "expires_at" ∷ [];
  list_filter = some (codes "registered_to" ∷ codes "registrar" ∷ []);
  search_fields = codes "name" ∷ codes "registrar" ∷ codes "notes" ∷ [];
  ordering = codes "expires_at" ∷ [];
  readonly_fields = none;
}

-- `Site`, with its attribute.
unfoldable pub site_columns : Site → List (Text × Value)
site_columns row =
    (codes "id", number row.id)
    ∷ (codes "customer_id", key row.customer_id)
    ∷ (codes "order_id", key row.order_id)
    ∷ (codes "domain_id", key row.domain_id)
    ∷ (codes "repo_url", optional_text row.repo_url)
    ∷ (codes "live_url", optional_text row.live_url)
    ∷ (codes "hosting_ref", optional_text row.hosting_ref)
    ∷ (codes "package", text row.«package»)
    ∷ (codes "revisions_used", number row.revisions_used)
    ∷ (codes "published_at", moment row.published_at)
    ∷ (codes "notes", optional_text row.notes)
    ∷ (codes "created_at", moment (some row.created_at))
    ∷ []

-- `impl ModelAdmin for Site`.
unfoldable pub site_admin : ModelAdmin Site
site_admin = record {
  columns = site_columns;
  choices = (codes "package", codes "start" ∷ codes "pro" ∷ []) ∷ [];
  list_display =
      codes "live_url" ∷ codes "package" ∷ codes "revisions_used" ∷ codes "published_at" ∷ [];
  list_filter = some (codes "package" ∷ []);
  search_fields = codes "repo_url" ∷ codes "live_url" ∷ codes "hosting_ref" ∷ codes "notes" ∷ [];
  ordering = codes "-created_at" ∷ [];
  readonly_fields = none;
}

-- `Delivery`.
unfoldable pub delivery_columns : Delivery → List (Text × Value)
delivery_columns row =
    (codes "id", number row.id)
    ∷ (codes "site_id", key row.site_id)
    ∷ (codes "customer_id", key row.customer_id)
    ∷ (codes "offered_at", moment row.offered_at)
    ∷ (codes "accepted_at", moment row.accepted_at)
    ∷ (codes "domain_transferred", flag row.domain_transferred)
    ∷ (codes "hosting_transferred", flag row.hosting_transferred)
    ∷ (codes "source_transferred", flag row.source_transferred)
    ∷ (codes "refunded_at", moment row.refunded_at)
    ∷ (codes "refund_reason", optional_text row.refund_reason)
    ∷ (codes "notes", optional_text row.notes)
    ∷ (codes "created_at", moment (some row.created_at))
    ∷ []

-- `impl ModelAdmin for Delivery`.
unfoldable pub delivery_admin : ModelAdmin Delivery
delivery_admin = record {
  columns = delivery_columns;
  choices = [];
  list_display =
      codes "offered_at"
      ∷ codes "accepted_at"
      ∷ codes "domain_transferred"
      ∷ codes "source_transferred"
      ∷ [];
  list_filter =
      some (
        codes "domain_transferred" ∷ codes "hosting_transferred" ∷ codes "source_transferred" ∷ []);
  search_fields = codes "refund_reason" ∷ codes "notes" ∷ [];
  ordering = codes "-created_at" ∷ [];
  readonly_fields = none;
}
