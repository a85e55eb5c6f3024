-- ===== src/Netfw.antt =====
-- internal/spoke/netfw/netfw.go: the firewall behind an interface, and the Pinner that opens an
-- address for a time. Each locked section of the Go methods is a function of its own, so that a
-- method is its sections run in a row and a race is the same sections in another order.
pub mod Firewall
pub mod Recording
pub mod Pinner
mod Examples
pub use Firewall.{Programmer, BoxSpec}
