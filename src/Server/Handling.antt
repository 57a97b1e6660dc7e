-- ===== src/Server/Handling.antt =====
-- What the handlers of crates/relay/src/server.rs do with a request, and with the registry of
-- sessions.
use node_access.Prelude.{
  ℕ, ◌<◌, ◌≡◌, ◌≢◌, ◌⊎◌, refl, inl, inr, Option-cases, none, some, Bool, Bool-cases, true, false,
  List, All, Text, str, arith,
}
use node_access.HashMap.{get}
use node_access.HashMap.Entries.{Entries, Entries-insert, Entries-get}
use node_access.Protocol.{WsParams, ConnectionRole, ok, err, parse_version}
use node_access.Runtime.{Channels, Json}
use node_access.Session.State.{OutboundMessage, SessionState, PeerId, SessionKey}
use node_access.Session.WellFormed.{WellFormed}
use node_access.Session.System.{empty-WellFormed}
use node_access.Session.Registry.{
  SessionRegistry, new_session, get_or_create, update, key_Eq, sessions_isolated,
}
use node_access.Server.Params.{
  RawWsParams, Refusal, Validated, accepted, refused, validate_params, validate_params_accepts,
  trimmed, parsed_role, session_key, build_peer_meta_total,
}
use node_access.Server.Socket.{Outcome, Round, run_peer, run_peer-WellFormed, Keeps}
use node_access.Server.App.{
  AppState, Response, answer, upgrade, upgraded, response_of, ws_handler, handle_socket,
}

-- The parameters that a request gives.
abbrev pub Gives : RawWsParams → WsParams → Type 0
Gives raw params =
    (trimmed raw.server_id ≡ some params.server_id)
    × (parsed_role raw.role ≡ some params.role)
    × (parse_version raw.v ≡ ok params.version)
    × (params.connection_id ≡ trimmed raw.connection_id)

-- The first fault of a request's parameters, with the message for it.
abbrev pub Faulty : RawWsParams → Text → Type 0
Faulty raw message =
    ((trimmed raw.server_id ≡ none) × (message ≡ str "Missing serverId parameter"))
    ⊎ ((server_id : Text) × (trimmed raw.server_id ≡ some server_id)
        × (((parsed_role raw.role ≡ none) × (message ≡ str "Missing or invalid role parameter"))
            ⊎ ((role : ConnectionRole) × (parsed_role raw.role ≡ some role)
                × (parse_version raw.v ≡ err message))))

-- What is said of the answer to a request.
abbrev pub Answered : Bool → RawWsParams → Response → Type 0
Answered ws raw (answer status message) =
    ((status ≡ 400) × Faulty raw message)
    ⊎ ((status ≡ 426)
        × (message ≡ str "Expected WebSocket upgrade")
        × (ws ≡ false)
        × (params : WsParams) × Gives raw params)
Answered ws raw (upgrade params) = (ws ≡ true) × Gives raw params

refused_Faulty :
    (raw : RawWsParams) (refusal : Refusal)
    → validate_params raw ≡ refused refusal
    → (refusal.status ≡ 400) × Faulty raw refusal.message
unfolding validate_params
refused_Faulty raw refusal e = elim (Option-cases (trimmed raw.server_id)) [
  | inl sid ↦ let bad = rw sid at e in (ground (arith, bad), inl (sid, ground (arith, bad)))
  | inr (server_id, sid) ↦ elim (Option-cases (parsed_role raw.role)) [
    | inl r ↦
        let bad = rw (sid, r) at e in
        (ground (arith, bad), inr (server_id, sid, inl (r, ground (arith, bad))))
    | inr (role, r) ↦
        let bad = rw (sid, r) at e in
        (ground (arith, bad), inr (server_id, sid, inr (role, r, ground (arith, bad))))
  ]
]

-- A request is answered by the upgrade only if it asks for it and its parameters are in order: it
-- has a server id that is not blank, a role and a version that parse, and the upgrade has the
-- parameters that these give, a blank connection id counting as none. It is answered with status
-- 400 only if its parameters are not in order, with the message for the first of the three that is
-- not, and with status 426 only if it does not ask for the upgrade and its parameters are in order.
pub ws_handler-Answered : (ws : Bool) (raw : RawWsParams) → Answered ws raw (ws_handler ws raw)
unfolding ws_handler response_of upgraded
ws_handler-Answered ws raw = of (validate_params raw) refl
  where
    of : (v : Validated) → validate_params raw ≡ v → Answered ws raw (response_of ws v)
    of (refused refusal) e = inl (refused_Faulty raw refusal e)
    of (accepted params) e =
        let p = validate_params_accepts raw params e in
        elim (Bool-cases ws) [
          | inl y ↦ rw (y, upgraded) (refl, p)
          | inr y ↦ rw (y, upgraded) (inr (refl, refl, refl, params, p))
        ]

-- Every session of the registry is well formed.
abbrev pub Sound : AppState → Type 0
Sound state = Entries (λ key session. WellFormed state.limits session.state) state.registry.sessions

module _ (net : Channels OutboundMessage) (json : Json) where
  got_Sound :
      (state : AppState) (key : SessionKey)
      → Sound state
      → let r = get_or_create state.registry key in
        WellFormed state.limits r.0.state
        × Entries (λ key session. WellFormed state.limits session.state) r.1.sessions
  unfolding get_or_create new_session
  got_Sound state key h = elim (Option-cases (get key state.registry.sessions)) [
    | inl e ↦
        let empty = empty-WellFormed net json state.limits in
        rw (e, get_or_create) (empty, Entries-insert _ key _ state.registry.sessions empty h)
    | inr (session, e) ↦ rw (e, get_or_create) (Entries-get _ key state.registry.sessions h e, h)
  ]

  update_Sound :
      (state : AppState) (r : SessionRegistry) (key : SessionKey) (s : SessionState)
      → WellFormed state.limits s
      → Entries (λ key session. WellFormed state.limits session.state) r.sessions
      → Entries (λ key session. WellFormed state.limits session.state) (update r key s).sessions
  unfolding update
  update_Sound state r key s w h = elim (Option-cases (get key r.sessions)) [
    | inl e ↦ rw (e, update) h
    | inr (session, e) ↦ rw (e, update) (Entries-insert _ key _ r.sessions w h)
  ]

  -- A socket is handled to its end without a panic, whatever comes in on it and whatever others do
  -- to its session meanwhile that keeps the session well formed: every session of the registry is
  -- well formed after it if each was before and the limit on the clients of a connection is not
  -- zero, the limits are the same, and the sessions of other servers and versions are untouched.
  pub handle_socket-Sound :
      (state : AppState) (params : WsParams) (peer_id : PeerId) (simple : Text) (tx now : ℕ)
      (rounds : List (Round net json state.limits)) (n : net.Net)
      → 0 < state.limits.max_clients_per_connection
      → All (λ round. Keeps net json state.limits round.others) rounds
      → Sound state
      → (outcome : Outcome) × (after : AppState) × (n' : net.Net) × (handle_socket net json state
            params peer_id simple tx now rounds n
          ≡ some (outcome, (after, n')))
        × Sound after
        × (after.limits ≡ state.limits)
        × ((other : SessionKey)
            → session_key params ≢ other
            → get other after.registry.sessions ≡ get other state.registry.sessions)
  unfolding handle_socket
  handle_socket-Sound state params peer_id simple tx now rounds n room k h =
      let key = session_key params in
      let r = get_or_create state.registry key in
      let (meta, built, is) = build_peer_meta_total params peer_id simple in
      let out =
        run_peer net json state.limits (record { meta = meta; tx = tx }) now rounds
          (r.0.state, n) in
      let (w, all) = got_Sound state key h in
      let kept =
        run_peer-WellFormed net json state.limits (record { meta = meta; tx = tx }) now rounds
          (r.0.state, n) room k w in
      (
        out.0,
        record state { registry = update r.1 key out.1.0 },
        out.1.1,
        rw (handle_socket, built) refl,
        update_Sound state r.1 key out.1.0 kept all,
        refl,
        λ other ne. (sessions_isolated state.registry key other out.1.0).1 ne,
      )
