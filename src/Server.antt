-- ===== src/Server.antt =====
-- apps/server/src: the live rooms of the server.
pub mod Events
pub mod Wire
pub mod Session
pub mod Members
pub mod Attached
pub mod History
pub mod Messages
pub mod Hub
pub mod Sockets
pub mod Broadcast
pub mod Frames
pub mod Authority
pub mod Closing
