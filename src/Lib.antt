-- ===== src/Lib.antt =====
-- node-access: private network access over a relay. The relay server (crates/relay) joins a serving
-- node and its clients in sessions and forwards their WebSocket messages; the nodes
-- (crates/node-access-3role, crates/node-access-2role) carry many TCP streams over one relayed
-- WebSocket, as frames that may be encrypted, and lead visitors to the services that others provide.
--
-- Parts and files:
-- - Prelude, Prelude/*: shared names, tests on numbers, lists and texts, and numbers as texts
--   (`Decimal`). A text is the list of its Unicode scalar values. HashMap, HashMap/*:
--   `std::collections::HashMap` as an association list.
-- - Runtime: tokio's bounded channels and serde_json's values as interfaces with their documented
--   laws; Runtime/Samples has an instance of each.
-- - Protocol: crates/relay/src/protocol.rs.
-- - Session: crates/relay/src/session.rs. `State` has the data, `Ops` the helpers at the end of the
--   file, `Handlers` the methods `register`, `handle_frame`, `handle_ping` and `unregister`, each one
--   step on the session and the network, since each holds the session's mutex; `Nudge` the task
--   `nudge_or_reset_control`, by its visits of the mutex; `Registry` the `SessionRegistry`. The other
--   files hold proofs: `WellFormed/*` what every operation keeps, `System` runs of operations,
--   `Routing`, `Delivery`, `Forwarding`, `Orders`, `Arrivals`, `Carrying`, `Waiting` and `Buffer` where
--   frames go, `Lifecycle` and `Ids/*` joining, leaving and the ids of a session.
-- - Config: crates/relay/src/config.rs, over a function for the environment; `Reading` and `Errors` what
--   it reads and what it refuses.
-- - Server: crates/relay/src/server.rs. `Params` has `validate_params` and `build_peer_meta`, `Peer`
--   the guards in the loop of `run_peer`, `Socket` the whole of `run_peer` over a session, with what
--   others do to the session between two messages as a function, `Leaving` its end; `App` the state, the
--   answer to a request, `handle_socket` over the registry, the write task, and the start of
--   crates/relay/src/main.rs; `Handling` is about these.
-- - Mux: crates/node-access-3role/src/mux.rs and crypto.rs. `Frame` has the encoding, `Crypto` the
--   nonces and the wrapping, `Streams` the ids of streams and `poll_read`, `Reader` the arms of
--   `read_loop`, `Loops` both loops, `Endpoint` the handle and the streams of one end, `Link/*` two joined
--   ends as a step relation, in which each end works and hears in any order, `Opening` a stream from its
--   `Open` frame on, `Reading/*` the calls of `poll_read` while a stream's channel fills, `Carried` a stream
--   from what is written at one end to what is read at the other.
-- - Carriage: Mux over Server and Session, one end's messages through the loop of a relay's socket, with
--   its limits, to the other end.
-- - Socks: `serve_socks5` of crates/node-access-3role/src/socks.rs, as far as the copying; `Requests` a
--   request that is well formed, `Shapes` what bytes a client sends, `Addresses` and `Answers` every way in
--   which the handshake can end.
-- - Node: `Mapping` is crates/node-access-3role/src/mapping.rs; `Events`, `Relay`, `Data` and `Providers`
--   are crates/node-access-3role/src/bin/node-relay.rs, as the operations under its state's mutex, a step
--   relation over them, and the loop over a data connection; `Access` is node-access.rs beside it, and
--   `Binding` both ends of a connection together, and `Pair/*` an access node and a relay node as a step
--   relation, in which their loops, listeners and streams and other connections go on in any order; `Serve` and `Served` are
--   crates/node-access-2role/src/bin/node-access.rs; `Control` is the loop over the control channel of both
--   serving nodes, with what the tasks of the connections do to the state between its inputs, and
--   `Starts/*` and `Stops` about it; `Select` is what the loops over `tokio::select!` share;
--   `CommandLine` is crates/node-access-3role/src/legacy_cli.rs and the URLs of relay_ws.rs; `Process/*` the
--   processes of both node-access.rs from their arguments on.
-- - TestClient: crates/relay/src/bin/relay-test-client.rs; `Arguments`, `Joining` and `Receiving` what its
--   arguments come to, the session that it joins, and what it prints.
-- - Keepalive: the ping task of the serving nodes, with `handle_frame` of the relay and the loop that reads
--   the answers.
-- - Joining: the URLs of a serving node and its clients, and the session that the relay puts them in;
--   `Nodes` a visitor of the two-role node and the node that it visits.
--
-- Numbers: counters and ids of fixed width wrap as written out (`u32_mod`, `u64_mod`); lengths and
-- times are unbounded. Every loop is structural recursion over what comes in, be it messages, inputs or
-- the branches that are picked, so no fuel is needed. A `HashMap` is iterated in the order of its list;
-- what is sent to several channels does not depend on that order.
--
-- Parameters: the channels, JSON, the encoding of requests and messages by serde, the cipher and the
-- digest, the URL encoding, the reading of socket addresses, the reading of a URL's query, UTF-8 and the
-- print of IPv6 addresses, whether a TCP connection comes about, UUIDs and clocks.
--
-- Not modelled: opening sockets and connections, HTTP routing, logging, what clap makes of a command
-- line, the timers, and the copying of bytes between a stream and a TCP connection,
-- which are calls of libraries. What tasks do between two starts that one `Sync` of the control channel
-- leads to is put before or after it.
pub mod Prelude
pub mod HashMap
pub mod Protocol
pub mod Runtime
pub mod Session
pub mod Server
pub mod Mux
pub mod Node
pub mod Config
pub mod Socks
pub mod Carriage
pub mod Joining
pub mod TestClient
pub mod Keepalive
