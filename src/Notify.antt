-- ===== src/Notify.antt =====
-- crates/hemsidor24-notify: the messages, and what delivers them.
pub mod Message
pub mod Notifier
