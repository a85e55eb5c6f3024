-- ===== src/Guest.antt =====
-- internal/guest: the protocol between a spoke and the guest agent in a box.
pub mod Words
pub mod Frames
pub mod Pty
pub mod Agent
pub mod Verbs
pub mod Client
pub mod PutFile
pub mod Machine
mod Examples
