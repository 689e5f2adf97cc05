-- ===== src/Tests.antt =====
-- Concrete machines and inputs, and each theorem that has hypotheses at one of them.
pub mod Machine
pub mod Index
pub mod P4
pub mod Ring
pub mod Routes
pub mod Tries
pub mod Cache
