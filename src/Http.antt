-- ===== src/Http.antt =====
-- src/http: what serves the HTTP clients.
pub mod SseClient
pub mod ActionExecutor
pub mod Security
