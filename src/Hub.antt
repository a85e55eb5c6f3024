-- ===== src/Hub.antt =====
-- internal/hub: the server's own logic, over the hub's database.
pub mod ApiKeys
pub mod Allowlist
pub mod Records
pub mod Sessions
pub mod Proxies
mod Examples
