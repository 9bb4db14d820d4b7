-- ===== src/Studio/Tables.antt =====
-- What the studio's tables hold, and what each UPDATE statement of the back office does to them.
use hemsidor.Prelude.{
  ℕ, Bool, false, ◌&&◌, ◌||◌, Option, none, some, List, map, any, ◌==◌, if◌then◌else◌,
}
use hemsidor.Text.{Text}
use hemsidor.Studio.Models.{Order, Customer, Domain, Site, Delivery}

pub record Tables : Type 0 where
  pub orders : List Order
  pub customers : List Customer
  pub domains : List Domain
  pub sites : List Site
  pub deliveries : List Delivery

-- `column = $1`, false where the column is NULL.
abbrev pub is_id : Option ℕ → ℕ → Bool
is_id none id = false
is_id (some n) id = n == id

-- `column = now()` where it is NULL.
abbrev pub first_time : ℕ → Option ℕ → Option ℕ
first_time now none = some now
first_time now (some t) = some t

-- The columns that `stamp_delivery` is called for.
pub data Column : Type 0 where
  offered_at accepted_at : Column

-- The UPDATE statements of the back office.
pub data Update : Type 0 where
  set_status : (status : Text) (order_id : ℕ) → Update
  stamp_delivery : Column → (order_id : ℕ) → Update
  link_customer : (customer_id order_id : ℕ) → Update
  stamp_published : (site_id : ℕ) → Update
  transfer_flags : (order_id : ℕ) (domain hosting source : Bool) → Update
  stamp_refunded : (delivery_id : ℕ) → Update

-- `FROM sites s WHERE d.site_id = s.id AND s.order_id = $1`
abbrev pub delivers : List Site → ℕ → Delivery → Bool
delivers sites order_id d = any (λ s. is_id d.site_id s.id && is_id s.order_id order_id) sites

abbrev pub with_status : Text → ℕ → Order → Order
with_status status id o = if o.id == id then record o { status = status } else o

abbrev pub with_customer : ℕ → ℕ → Order → Order
with_customer customer_id id o =
    if o.id == id then record o { customer_id = some customer_id } else o

abbrev pub stamped : Column → ℕ → Delivery → Delivery
stamped offered_at now d = record d { offered_at = first_time now d.offered_at }
stamped accepted_at now d = record d { accepted_at = first_time now d.accepted_at }

abbrev pub with_stamp : Column → ℕ → List Site → ℕ → Delivery → Delivery
with_stamp column now sites order_id d =
    if delivers sites order_id d then stamped column now d else d

abbrev pub with_published : ℕ → ℕ → Site → Site
with_published now id s =
    if s.id == id then record s { published_at = first_time now s.published_at } else s

abbrev pub with_flags : List Site → ℕ → Bool → Bool → Bool → Delivery → Delivery
with_flags sites order_id domain hosting source d =
    if delivers sites order_id d
    then record d {
      domain_transferred = d.domain_transferred || domain;
      hosting_transferred = d.hosting_transferred || hosting;
      source_transferred = d.source_transferred || source;
    }
    else d

abbrev pub with_refund : ℕ → ℕ → Delivery → Delivery
with_refund now id d =
    if d.id == id then record d { refunded_at = first_time now d.refunded_at } else d

-- What a statement that succeeds at the moment `now` does to the tables.
unfoldable pub perform : ℕ → Update → Tables → Tables
perform now (set_status status id) t = record t { orders = map (with_status status id) t.orders }
perform now (stamp_delivery column id) t = record t {
  deliveries = map (with_stamp column now t.sites id) t.deliveries;
}
perform now (link_customer customer_id id) t = record t {
  orders = map (with_customer customer_id id) t.orders;
}
perform now (stamp_published id) t = record t { sites = map (with_published now id) t.sites }
perform now (transfer_flags id domain hosting source) t = record t {
  deliveries = map (with_flags t.sites id domain hosting source) t.deliveries;
}
perform now (stamp_refunded id) t = record t { deliveries = map (with_refund now id) t.deliveries }
