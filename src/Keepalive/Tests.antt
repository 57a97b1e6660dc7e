-- ===== src/Keepalive/Tests.antt =====
-- Witness of the theorem on the pings of a serving node, with JSON texts in which the object of a
-- ping stands as the text of a ping.
use node_access.Prelude.{inr}
use node_access.Prelude.{sym}
use node_access.Prelude.{inl}
use node_access.Prelude.{Bool-cases}
use node_access.Prelude.{◌*◌}
use node_access.Session.State.{empty_session}
use node_access.Prelude.{
  ℕ, ◌+◌, ◌≡◌, ◌∙◌, refl, ap, Bool, true, false, none, some, List, [], ◌∷◌, ◌++◌, map, Text, str,
  text_eq, text_Eq, ◌==◌, if◌then◌else◌, arith, text_eq_iff, eq_self,
}
use node_access.Runtime.{Json, Channels}
use node_access.Runtime.Samples.{Network, sample_channels, sample_json}
use node_access.Protocol.{server, v2}
use node_access.Session.State.{
  OutboundMessage, PeerMeta, PeerHandle, v2_server_control, SessionState,
}
use node_access.Node.Control.{ControlInput, text, run_control}
use node_access.Node.Relay.{RelayState}
use node_access.Keepalive.{ping_text, ping_task, hears, pongs, pings_answered}

abbrev ping_value : Text
ping_value = sample_json.object ((str "type", sample_json.string (str "ping")) ∷ [])

abbrev exchange : Text → Text → Text → Text
exchange a b v = if v == a then b else if v == b then a else v

exchange-twice : (a b v : Text) → exchange a b (exchange a b v) ≡ v
exchange-twice a b v = elim (Bool-cases (v == a)) [
  | inl y ↦ elim (Bool-cases (b == a)) [
    | inl z ↦ rw (y, z) ((text_eq_iff b a).0 z ∙ sym ((text_eq_iff v a).0 y))
    | inr z ↦ rw (y, z, eq_self b) (sym ((text_eq_iff v a).0 y))
  ]
  | inr y ↦ elim (Bool-cases (v == b)) [
    | inl z ↦ rw (y, z, eq_self a) (sym ((text_eq_iff v b).0 z))
    | inr z ↦ rw (y, z, y, z) refl
  ]
]

abbrev written : Text → Text
written = exchange ping_value ping_text

abbrev json : Json
json = record sample_json {
  to_string = written;
  from_str = λ t. some (written t);
  from_str-to_string = λ v. ap (λ (v : Text). some v) (exchange-twice ping_value ping_text v);
}

abbrev net : Channels OutboundMessage
net = sample_channels OutboundMessage

abbrev quiet : Network OutboundMessage
quiet = λ c. record { queue = []; capacity = 4; is_closed = false }

abbrev meta : PeerMeta
meta = record {
  peer_id = 3;
  server_id = str "node";
  role = server;
  version = v2;
  connection_id = none;
  kind = v2_server_control;
}

abbrev control : PeerHandle
control = record { meta = meta; tx = 0 }

abbrev session : SessionState
session = record empty_session { server_control = some control }

-- The third send fails.
abbrev ticks : List Bool
ticks = true ∷ true ∷ false ∷ true ∷ []

abbrev now : ℕ → ℕ
now k = 30_000 + 30_000 * k

pings_answered_example :
    let sent = (ping_task ticks).0 in
    let r = hears json net meta sent now 0 session quiet in
    (r.0 ≡ session)
    × (net.queued 0 r.1 ≡ net.queued 0 quiet ++ map OutboundMessage.text (pongs json sent now 0))
    × ((inputs : List ControlInput) (relay : RelayState)
        → run_control json (map text (pongs json sent now 0) ++ inputs) relay
          ≡ run_control json inputs relay)
unfolding ping_task text_eq
pings_answered_example =
    pings_answered json net meta session control refl refl refl refl refl ticks now quiet refl
      (omega arith)
