-- ===== src/Mux.antt =====
-- crates/node-access-3role/src/mux.rs and crypto.rs: frames of many streams over one WebSocket.
pub mod Frame
pub mod Crypto
pub mod Streams
pub mod Reading
pub mod Reader
pub mod Loops
pub mod Endpoint
pub mod Link
pub mod Opening
pub mod Samples
pub mod Carried
mod Tests
mod ReadingTests
mod CarriedTests
