-- ===== src/Box.antt =====
-- internal/spoke/box and internal/shared/sandbox: the manager of a spoke's boxes.
pub mod Identifiers
pub mod Provisioner
pub mod Naming
pub mod Keys
pub mod Manager
pub mod Fake
mod Examples
