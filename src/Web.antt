-- ===== src/Web.antt =====
-- crates/hemsidor24-web: the public page with the order form.
pub mod Spam
pub mod Form
pub mod Orders
pub mod Routes
pub mod Router
pub mod Config
pub mod Start
pub mod Shutdown
