-- ===== src/Tests.antt =====
-- Runs of the theorems on concrete devices.
mod Fixtures
mod Stores
mod Logins
mod Maintenance
mod Recoveries
mod Sessions
mod Portals
mod Privacy
mod Routers
mod Companions
mod Tunnels
mod Resolvers
mod Certificates
