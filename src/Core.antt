-- ===== src/Core.antt =====
-- crates/hemsidor24-core: the domain types and the validation rules, with no input or output.
pub mod Scope
pub mod Validation
pub mod Package
pub mod Style
pub mod Status
pub mod Order
