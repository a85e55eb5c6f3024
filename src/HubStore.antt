-- ===== src/HubStore.antt =====
-- internal/hub/store: the hub's database.
pub mod Rows
pub mod Database
pub mod Clustering
pub mod Allowlists
mod Examples
