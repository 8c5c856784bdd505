-- ===== src/Vpn.antt =====
-- internal/vpn: the import format of WireGuard configurations.
pub mod Text
pub mod Config
pub mod KillSwitch
pub mod Connector
