-- ===== src/Adapters.antt =====
-- src/adapters: what talks to the agents.
pub mod Wire
pub mod Rpc
