-- ===== src/Handover.antt =====
-- crates/hemsidor24-handover: the claims that the studio signs, and the receipt.
pub mod Asset
pub mod Cell
pub mod Custody
pub mod History
pub mod Receipt
