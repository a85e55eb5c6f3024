-- ===== src/Dnsd.antt =====
-- internal/spoke/dnsd: the resolver that enforces each box's allowlist.
pub mod Policy
pub mod Server
pub mod Messages
mod Examples
