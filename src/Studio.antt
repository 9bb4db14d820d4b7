-- ===== src/Studio.antt =====
-- crates/hemsidor24-admin: the back office's workflow over the studio's database.
pub mod Models
pub mod Tables
pub mod Backend
pub mod Monad
pub mod Workflow
pub mod Signing
pub mod Accept
pub mod Publication
pub mod Cancellation
pub mod Actions
pub mod Grows
pub mod Consistent
pub mod Interleaved
pub mod Outcomes
pub mod Mailer
pub mod Startup
pub mod Logging
pub mod Progress
pub mod Lives
pub mod Panel
