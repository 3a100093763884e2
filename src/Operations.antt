-- ===== src/Operations.antt =====
-- src/operations: what the program tells about itself.
pub mod Metrics
