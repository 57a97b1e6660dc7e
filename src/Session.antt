-- ===== src/Session.antt =====
-- crates/relay/src/session.rs: the registry of sessions, and the routing inside a session. Every
-- operation holds the session's mutex, so an operation is one step on the session and the network.
pub mod State
pub mod Ops
pub mod Handlers
pub mod Effects
pub mod Lifecycle
mod Tests
pub mod System
pub mod Delivery
pub mod Waiting
pub mod Nudge
pub mod Registry
pub mod Forwarding
pub mod Orders
pub mod Arrivals
pub mod Carrying
pub mod Ids
pub mod Routing
pub mod Buffer
pub mod WellFormed
