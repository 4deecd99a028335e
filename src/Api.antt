-- ===== src/Api.antt =====
-- pkg/api: the HTTP client of the relay's API, and the manager that registers the peer and keeps its
-- registration alive.
pub mod Client
pub mod Manager
pub mod Calls
pub mod WireGuard
