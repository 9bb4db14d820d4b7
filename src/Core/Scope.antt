-- ===== src/Core/Scope.antt =====
-- crates/hemsidor24-core/src/scope.rs: the limits of the product.
use hemsidor.Prelude.{ℕ}

abbrev pub max_services : ℕ
max_services = 6

abbrev pub max_pages : ℕ
max_pages = 1

abbrev pub included_revisions : ℕ
included_revisions = 1

abbrev pub vat_percent : ℕ
vat_percent = 25
