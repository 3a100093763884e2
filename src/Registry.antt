-- ===== src/Registry.antt =====
-- src/core/registry.js: the registry of agents, as far as it is modelled.
pub mod Circuit
