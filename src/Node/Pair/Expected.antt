-- ===== src/Node/Pair/Expected.antt =====
-- What the loops of an access node and a relay node of crates/node-access-3role expect of each
-- other.
use node_access.Prelude.{ℕ, List, All, Text, text_Eq}
use node_access.HashMap.{HashMap}
use node_access.HashMap.Entries.{Entries}
use node_access.Mux.Endpoint.{Endpoint}
use node_access.Node.Mapping.{TcpMapping}
use node_access.Node.Providers
use node_access.Node.Pair.{Pair, IsAsked}
use node_access.Node.Pair.Frames.{Sends, Told}
use node_access.Node.Pair.Turns.{IsAck, IsKnown, IsBind, IsProvided, Owned}

module _ (mux : ℕ) (id : Text) (providers : List TcpMapping) where
  Asks : Endpoint → Type 0
  Asks e = Sends IsAsked (IsBind mux providers) e × Told (IsProvided mux providers) IsAck e.reader

  -- What each end sends and has been told, which providers the relay node keeps, and which visits
  -- are under way.
  record Sound (p : Pair) : Type 0 where
    up : Sends IsAsked (IsBind mux providers) p.access
    up_told : Told IsAsked (IsBind mux providers) p.relay.reader
    down : Sends (IsProvided mux providers) IsAck p.relay
    down_told : Told (IsProvided mux providers) IsAck p.access.reader
    owned : Entries (Owned mux providers) p.state.providers
    found : All (IsKnown mux providers) p.looked_up
