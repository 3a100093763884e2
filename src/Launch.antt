-- ===== src/Launch.antt =====
-- The launch service: src/core/launch-contracts.js, launch-ledger.js and launch-coordinator.js.
pub mod Contracts
pub mod Catalog
pub mod Coordinator
pub mod Ledger
