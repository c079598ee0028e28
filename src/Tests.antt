-- ===== src/Tests.antt =====
-- The properties at concrete inputs.
pub mod Data
pub mod Histories
pub mod Pure
pub mod Stages
pub mod Issuance
