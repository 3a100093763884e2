-- ===== src/Tests.antt =====
-- Runs of the modelled code at concrete inputs.
mod Ledger
mod Coordinator
mod Answers
mod Security
mod Rpc
mod Metrics
mod Circuit
mod Http
mod Wire
mod Requests
mod Agents
