-- ===== src/Contracts.antt =====
-- contracts/*.py: which tables each layer has, and what the pipeline knows of each.
pub mod Bronze
pub mod Silver
pub mod Gold
pub mod Cdc
pub mod Topics
mod Tests
