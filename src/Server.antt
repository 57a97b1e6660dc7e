-- ===== src/Server.antt =====
-- crates/relay/src/server.rs: the parameters of a connection, and the life of one socket.
pub mod Params
pub mod Peer
pub mod Socket
pub mod Leaving
pub mod App
pub mod Handling
mod Tests
mod HandlerTests
