-- ===== src/Tests.antt =====
-- Concrete inputs, and each theorem applied to one.
pub mod Memory
pub mod Shop
mod Studio
mod Forms
mod Web
mod Handover
mod Startup
mod Progress
mod Custody
mod Operators
mod Consistency
