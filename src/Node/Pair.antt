-- ===== src/Node/Pair.antt =====
-- One access node of crates/node-access-3role that is connected to a relay node: their loops,
-- listeners and streams, and the frames between them, in any interleaving with what other
-- connections do to the relay node's state.
pub mod Frames
pub mod Turns
pub mod Expected
use node_access.Prelude.{ℕ, ◌≡◌, ◌≢◌, Option, none, some, List, [], ◌∷◌, Text, text_Eq}
use node_access.HashMap.{HashMap}
use node_access.HashMap.Entries.{Entries}
use node_access.Mux.Frame.{OpenRequest, socks, visit, provider_connect, MuxFrame}
use node_access.Mux.Endpoint.{Endpoint, open_stream, arrive}
use node_access.Mux.Link.{Op, writes, closes, drops, opens, tells, apply}
use node_access.Session.Routing.{Elem}
use node_access.Node.Mapping.{TcpMapping}
use node_access.Node.Relay.{ProviderEndpoint, RelayState, handle_visit, open_on}
use node_access.Node.Providers
use node_access.Node.Providers.{told, bound, ended}
use node_access.Node.Select.{Branch, Turn, goes_on}
use node_access.Node.Data.{Act, DataState, data_branch, relay_end}
use node_access.Node.Access.{AccessAct, access_branch, access_end, target_table}

-- `looked_up` are the names of the visits that have found a provider on the connection, and have
-- not opened its stream yet: the lock is released in between.
pub record Pair : Type 0 where
  pub access : Endpoint
  pub relay : Endpoint
  pub state : RelayState
  pub looked_up : List Text

-- What a listener opens.
abbrev pub IsAsked : OpenRequest → Type 0
IsAsked socks = Unit
IsAsked (visit name auth) = Unit
IsAsked (provider_connect name) = ⊥

-- What a task does with a stream.
abbrev pub IsStreaming : Op → Type 0
IsStreaming (writes stream payload) = Unit
IsStreaming (closes stream) = Unit
IsStreaming (drops stream) = Unit
IsStreaming (opens request) = ⊥
IsStreaming (tells message) = ⊥

-- What is done for other connections: their handles are other ones.
abbrev pub IsForeign : ℕ → {s t : RelayState} → Providers.Step s t → Type 0
IsForeign mux (told event) = Unit
IsForeign mux (bound other connection_id name auth active) = other ≢ mux
IsForeign mux (ended connection_id) = Unit

module _ (mux : ℕ) (id : Text) (providers : List TcpMapping) where
  abbrev pub targets : HashMap Text Text
  targets = target_table providers []

  pub data Step (p : Pair) : Pair → Type 0 where
    access_turns :
        (branch : Branch) (act : AccessAct) (e : Endpoint)
        → access_branch targets branch p.access ≡ goes_on act e
        → Step p (record p { access = e })
    relay_turns :
        (branch : Branch) (act : Act) (r : DataState)
        → data_branch mux id branch (p.state, p.relay) ≡ goes_on act r
        → Step p (record p { state = r.0; relay = r.1 })
    listener_opens :
        (request : OpenRequest)
        → IsAsked request
        → Step p (record p { access = (open_stream request p.access).1 })
    visit_finds :
        (name : Text) (auth : Option Text)
        → handle_visit name auth p.state ≡ open_on mux (provider_connect name)
        → Step p (record p { looked_up = name ∷ p.looked_up })
    visit_opens :
        (name : Text)
        → Elem name p.looked_up
        → Step p (record p { relay = (open_stream (provider_connect name) p.relay).1 })
    access_streams : (op : Op) → IsStreaming op → Step p (record p { access = apply op p.access })
    relay_streams : (op : Op) → IsStreaming op → Step p (record p { relay = apply op p.relay })
    access_hears :
        (f : MuxFrame) (rest : List MuxFrame)
        → p.relay.outbound ≡ f ∷ rest
        → Step p
            (record p { access = arrive f p.access; relay = record (p.relay) { outbound = rest } })
    relay_hears :
        (f : MuxFrame) (rest : List MuxFrame)
        → p.access.outbound ≡ f ∷ rest
        → Step p
            (record p { access = record (p.access) { outbound = rest }; relay = arrive f p.relay })
    others :
        {t : RelayState} (step : Providers.Step p.state t)
        → IsForeign mux step
        → Step p (record p { state = t })

  -- From the beginning of a connection, in any state of the relay node in which its handle is new.
  pub data Reached : Pair → Type 0 where
    begins :
        (s : RelayState)
        → Entries (λ name p. p.mux ≢ mux) s.providers
        → Reached (record {
          access = (access_end providers).1;
          relay = relay_end;
          state = s;
          looked_up = [];
        })
    follows : {p q : Pair} → Reached p → Step p q → Reached q
