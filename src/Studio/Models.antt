-- ===== src/Studio/Models.antt =====
-- crates/hemsidor24-admin/src/models.rs: the five tables' rows. Identifiers are the positive numbers
-- that the database hands out, a moment is a number of its clock.
use hemsidor.Prelude.{ℕ, Bool, Option}
use hemsidor.Text.{Text}

pub record Order : Type 0 where
  pub id : ℕ
  pub company : Text
  pub city : Text
  pub phone : Text
  pub email : Text
  pub services : Text
  pub style : Text
  pub «package» : Text
  pub status : Text
  pub received_at : ℕ
  pub ip_hash : Option Text
  pub user_agent : Option Text
  pub notified_at : Option ℕ
  pub customer_id : Option ℕ

pub record Customer : Type 0 where
  pub id : ℕ
  pub company : Text
  pub city : Text
  pub phone : Text
  pub email : Text
  pub org_nr : Option Text
  pub notes : Option Text
  pub created_at : ℕ

pub record Domain : Type 0 where
  pub id : ℕ
  pub customer_id : Option ℕ
  pub name : Text
  pub registrar : Option Text
  pub registered_to : Text
  pub registered_at : Option ℕ
  pub expires_at : Option ℕ
  pub notes : Option Text
  pub created_at : ℕ

pub record Site : Type 0 where
  pub id : ℕ
  pub customer_id : Option ℕ
  pub order_id : Option ℕ
  pub domain_id : Option ℕ
  pub repo_url : Option Text
  pub live_url : Option Text
  pub hosting_ref : Option Text
  pub «package» : Text
  pub revisions_used : ℕ
  pub published_at : Option ℕ
  pub notes : Option Text
  pub created_at : ℕ

pub record Delivery : Type 0 where
  pub id : ℕ
  pub site_id : Option ℕ
  pub customer_id : Option ℕ
  pub offered_at : Option ℕ
  pub accepted_at : Option ℕ
  pub domain_transferred : Bool
  pub hosting_transferred : Bool
  pub source_transferred : Bool
  pub refunded_at : Option ℕ
  pub refund_reason : Option Text
  pub notes : Option Text
  pub created_at : ℕ
