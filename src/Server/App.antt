-- ===== src/Server/App.antt =====
-- The routes of crates/relay/src/server.rs: the state that the handlers share, what a request for a
-- WebSocket is answered with, the task that writes to a socket, and the start from the
-- configuration.
use node_access.Prelude.{
  ℕ, zero, suc, Option, none, some, Bool, true, false, List, [], ◌∷◌, Text, str, text_Eq,
}
use node_access.Protocol.{WsParams, Result}
use node_access.Runtime.{Channels, Json}
use node_access.Session.State.{
  OutboundMessage, PeerId, RelayTimingConfig, RelayLimitsConfig, default_timings, default_limits,
}
use node_access.Session.Registry.{SessionRegistry, new_registry, get_or_create, update, key_Eq}
use node_access.Config.{RelayConfig}
use node_access.Server.Params.{
  RawWsParams, Validated, accepted, refused, validate_params, session_key, build_peer_meta,
}
use node_access.Server.Socket.{Outcome, Round, run_peer}

pub record AppState : Type 0 where
  pub registry : SessionRegistry
  pub limits : RelayLimitsConfig
  pub diagnostics : Bool

unfoldable pub new_app : RelayTimingConfig → RelayLimitsConfig → AppState
unfolding new_registry
new_app timings limits = record {
  registry = new_registry timings limits;
  limits = limits;
  diagnostics = false;
}

unfoldable pub default_app : AppState
unfolding new_app
default_app = new_app default_timings default_limits

unfoldable pub with_diagnostics : Bool → AppState → AppState
with_diagnostics diagnostics state = record state { diagnostics = diagnostics }

-- `main`, once the configuration is read.
unfoldable pub app_of_config :
    {Addr : Type 0} {parse : Text → Result Addr} → RelayConfig Addr parse → AppState
unfolding new_app with_diagnostics
app_of_config config = with_diagnostics config.diagnostics (new_app config.timings config.limits)

-- A status with a message, or the upgrade to a WebSocket, on which `handle_socket` runs.
pub data Response : Type 0 where
  answer : ℕ → Text → Response
  upgrade : WsParams → Response

unfoldable pub upgraded : Bool → WsParams → Response
upgraded true params = upgrade params
upgraded false params = answer 426 (str "Expected WebSocket upgrade")

unfoldable pub response_of : Bool → Validated → Response
unfolding upgraded
response_of ws (refused refusal) = answer refusal.status refusal.message
response_of ws (accepted params) = upgraded ws params

-- `ws` says whether the request asks for the upgrade.
unfoldable pub ws_handler : Bool → RawWsParams → Response
unfolding response_of validate_params
ws_handler ws raw = response_of ws (validate_params raw)

-- The messages that the task sends, of those that come out of the channel, where so many sends
-- succeed: it stops at the first send that fails.
unfoldable pub write_task : ℕ → List OutboundMessage → List OutboundMessage
write_task sends [] = []
write_task zero (message ∷ messages) = []
write_task (suc sends) (message ∷ messages) = message ∷ write_task sends messages

module _ (net : Channels OutboundMessage) (json : Json) where
  -- A socket with its session in the registry, while nothing happens in other sessions: what
  -- `run_peer` makes of the session's state is in the entry of its key. The new peer id, the UUID
  -- and the channel are arguments; `none` is the panic of `build_peer_meta`.
  unfoldable pub handle_socket :
      (state : AppState)
      → WsParams
      → PeerId
      → Text
      → ℕ
      → ℕ
      → List (Round net json state.limits)
      → net.Net
      → Option (Outcome × (AppState × net.Net))
  unfolding get_or_create session_key update build_peer_meta run_peer
  handle_socket state params peer_id simple tx now rounds n =
      let key = session_key params in
      let r = get_or_create state.registry key in
      elim (build_peer_meta params peer_id simple) [
        | none ↦ none
        | some meta ↦
            let out =
              run_peer net json state.limits (record { meta = meta; tx = tx }) now rounds
                (r.0.state, n) in
            some (out.0, (record state { registry = update r.1 key out.1.0 }, out.1.1))
      ]
