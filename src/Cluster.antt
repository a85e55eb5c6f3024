-- ===== src/Cluster.antt =====
-- internal/shared/cluster: how spokes enroll with the hub and stay connected.
pub mod Store
pub mod Secrets
pub mod Tokens
pub mod Revoking
pub mod Handshake
pub mod Registry
mod Examples
