-- ===== src/HttpApi.antt =====
-- internal/httpapi: the HTTP API of the daemon.
pub mod TtlSet
pub mod Server
pub mod Session
pub mod Ceremonies
pub mod Routes
pub mod Portal
pub mod Toggles
pub mod Tunnel
pub mod Privacy
pub mod Joins
pub mod Maint
