-- ===== src/Netcfg.antt =====
-- internal/netcfg: the Wi-Fi side of the router.
pub mod Identity
pub mod Wifi
