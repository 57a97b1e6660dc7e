-- ===== src/Node.antt =====
-- The nodes that serve: crates/node-access-3role/src/bin/node-relay.rs, the serving half of
-- crates/node-access-2role/src/bin/node-access.rs, mapping.rs, with which both read services, and
-- legacy_cli.rs and relay_ws.rs, with which they read arguments and find the relay.
pub mod Mapping
pub mod Events
pub mod Select
pub mod Relay
pub mod Data
pub mod Access
pub mod Binding
pub mod Pair
mod PairTests
pub mod Control
pub mod Starts
pub mod Stops
pub mod Served
pub mod Providers
pub mod Serve
pub mod CommandLine
pub mod Process
mod Tests
mod LoopTests
mod ProcessTests
