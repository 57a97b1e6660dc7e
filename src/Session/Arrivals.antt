-- ===== src/Session/Arrivals.antt =====
-- The frames that a session of crates/relay/src/session.rs takes from its sockets, and what none of
-- them changes.
use node_access.Prelude.{Option-cases}
use node_access.Prelude.{
  ℕ, ◌+◌, ◌≡◌, refl, sym, ap, ◌∙◌, Bool, true, false, inl, inr, List, [], ◌∷◌, ◌++◌, append-nil,
  append_assoc, map, length, Text, nat_eq, text_Eq, ◌==◌, if◌then◌else◌, arith,
}
use node_access.HashMap.{get}
use node_access.Runtime.{Channels, Json}
use node_access.Protocol.{RelayVersion, v1, v2}
use node_access.Session.State.{
  OutboundMessage, PeerMeta, PeerKind, PeerHandle, v1_server, v1_client, v2_server_control,
  v2_server_data, v2_client, SessionState, RelayFrame,
}
use node_access.Session.Ops.{to_outbound, buffer_pending_locked}
use node_access.Session.Handlers.{route_frame}
use node_access.Session.Routing.{
  Counterpart, InSession, in_v1_server, in_v1_client, in_control, in_data, in_clients,
}

-- A frame that the relay takes from a socket.
pub record Arrival : Type 0 where
  pub meta : PeerMeta
  pub ts : ℕ
  pub frame : RelayFrame

-- Whether the peer is a v2 client of the connection.
abbrev pub is_client : Text → RelayVersion → PeerKind → Bool
is_client id v2 (v2_client k) = k == id
is_client id _ _ = false

abbrev pub frames_of : Text → List Arrival → List RelayFrame
frames_of id [] = []
frames_of id (a ∷ arrivals) =
    if is_client id a.meta.version a.meta.kind
    then a.frame ∷ frames_of id arrivals
    else frames_of id arrivals

pub counted :
    (b : Bool) (frame : RelayFrame) (rest : List RelayFrame)
    → length (if b then frame ∷ rest else rest)
      ≡ length (if b then to_outbound frame ∷ [] else []) + length rest
counted true frame rest = omega arith
counted false frame rest = omega arith

pub joined_frames :
    (b : Bool) (frame : RelayFrame) (rest : List RelayFrame) (old : List OutboundMessage)
    → (old ++ (if b then to_outbound frame ∷ [] else [])) ++ map to_outbound rest
      ≡ old ++ map to_outbound (if b then frame ∷ rest else rest)
joined_frames true frame rest old = append_assoc old (to_outbound frame ∷ []) (map to_outbound rest)
joined_frames false frame rest old =
    ap (λ (ms : List OutboundMessage). ms ++ map to_outbound rest) (append-nil old)

-- The same sockets, whatever waits.
pub record SameSockets (s s' : SessionState) : Type 0 where
  pub same_v1_server : s'.v1_server ≡ s.v1_server
  pub same_v1_client : s'.v1_client ≡ s.v1_client
  pub same_control : s'.server_control ≡ s.server_control
  pub same_data : s'.server_data ≡ s.server_data
  pub same_clients : s'.clients ≡ s.clients

pub InSession-same :
    {s s' : SessionState} {h : PeerHandle} → SameSockets s s' → InSession h s' → InSession h s
InSession-same e (in_v1_server q) = in_v1_server (sym e.same_v1_server ∙ q)
InSession-same e (in_v1_client q) = in_v1_client (sym e.same_v1_client ∙ q)
InSession-same e (in_control q) = in_control (sym e.same_control ∙ q)
InSession-same e (in_data id q) = in_data id (sym (ap (get id) e.same_data) ∙ q)
InSession-same e (in_clients id c q m) = in_clients id c (sym (ap (get id) e.same_clients) ∙ q) m

-- Only its clients have a server data socket for a counterpart.
pub only_clients :
    (id : Text) (kind : PeerKind) → Counterpart kind (v2_server_data id) → kind ≡ v2_client id
only_clients id v1_server e = absurd (cc e)
only_clients id v1_client e = absurd (cc e)
only_clients id v2_server_control e = absurd (cc e)
only_clients id (v2_client k) e = ap v2_client (cc e)
only_clients id (v2_server_data k) e = absurd (cc e)

module _ (net : Channels OutboundMessage) (json : Json) where
  open net use {Net}

  all_same : (s : SessionState) → SameSockets s s
  all_same s = record {
    same_v1_server = refl;
    same_v1_client = refl;
    same_control = refl;
    same_data = refl;
    same_clients = refl;
  }

  pub route_frame-same :
      (meta : PeerMeta) (ts : ℕ) (version : RelayVersion) (kind : PeerKind) (frame : RelayFrame)
      (s : SessionState) (n : Net)
      → SameSockets s (route_frame net json meta ts version kind frame s n).0
  unfolding route_frame buffer_pending_locked
  route_frame-same meta ts v1 v1_server frame s n = all_same s
  route_frame-same meta ts v1 v1_client frame s n = all_same s
  route_frame-same meta ts v2 v2_server_control (RelayFrame.text t) s n = all_same s
  route_frame-same meta ts v2 v2_server_control (RelayFrame.binary b) s n = all_same s
  route_frame-same meta ts v2 (v2_client k) frame s n = elim (Option-cases (get k s.server_data)) [
    | inl e ↦
        rw (e, route_frame)
          (record {
            same_v1_server = refl;
            same_v1_client = refl;
            same_control = refl;
            same_data = refl;
            same_clients = refl;
          })
    | inr (h, e) ↦ rw (e, route_frame) (all_same s)
  ]
  route_frame-same meta ts v2 (v2_server_data k) frame s n = elim (Option-cases (get k s.clients)) [
    | inl e ↦ rw (e, route_frame) (all_same s)
    | inr (c, e) ↦ rw (e, route_frame) (all_same s)
  ]
  route_frame-same meta ts _ _ frame s n = all_same s
