-- ===== src/Session/Routing.antt =====
-- Where `handle_frame` of crates/relay/src/session.rs sends: to the counterparts of the sender.
use node_access.Prelude.{
  ℕ, ◌≡◌, ◌≢◌, refl, Option, none, some, List, [], ◌∷◌, Text, nat_eq, text_Eq, inl, inr,
  Option-cases, Bool-cases, All, arith, ◌==◌,
}
use node_access.HashMap.{HashMap, get, values}
use node_access.HashMap.Entries.{Entries-get, Entries-values, Entries-weaken}
use node_access.Runtime.{Channels, Json}
use node_access.Protocol.{RelayVersion, v1, v2}
use node_access.Session.State.{
  OutboundMessage, PeerMeta, PeerKind, PeerId, PeerHandle, v1_server, v1_client, v2_server_control,
  v2_server_data, v2_client, SessionState, RelayLimitsConfig, RelayFrame,
}
use node_access.Session.Ops.{text_is_ping, to_outbound, forward_frame}
use node_access.Session.Handlers.{
  handle_frame, route_frame, forward_all, each, forward_slot, answer_ping,
}
use node_access.Session.Effects.{Sends, nothing, Sends-trans, Sends-other, Sends-send_or_close}
use node_access.Session.WellFormed.{Slot, WellFormed}

-- Whom the frames of a kind of peer are for.
abbrev pub Counterpart : PeerKind → PeerKind → Type 0
Counterpart v1_server kind = kind ≡ v1_client
Counterpart v1_client kind = kind ≡ v1_server
Counterpart v2_server_control kind = kind ≡ v2_server_control
Counterpart (v2_client id) kind = kind ≡ v2_server_data id
Counterpart (v2_server_data id) kind = kind ≡ v2_client id

pub data Elem {ℓ} {A : Type ℓ} (a : A) : List A → Type ℓ where
  here : {xs : List A} → Elem a (a ∷ xs)
  there : {x : A} {xs : List A} → Elem a xs → Elem a (x ∷ xs)

-- A handle that the session holds.
pub data InSession (h : PeerHandle) (s : SessionState) : Type 0 where
  in_v1_server : s.v1_server ≡ some h → InSession h s
  in_v1_client : s.v1_client ≡ some h → InSession h s
  in_control : s.server_control ≡ some h → InSession h s
  in_data : (id : Text) → get id s.server_data ≡ some h → InSession h s
  in_clients :
      (id : Text) (c : HashMap PeerId PeerHandle)
      → get id s.clients ≡ some c
      → Elem h (values c)
      → InSession h s

-- The channel of a handle in the session that is a counterpart of the kind.
abbrev pub IsTarget : PeerKind → SessionState → ℕ → Type 0
IsTarget kind s c = (h : PeerHandle) × InSession h s × Counterpart kind h.meta.kind × (h.tx ≡ c)

module _ (net : Channels OutboundMessage) where
  open net use {Net}

  Sends-forward_frame :
      (P : ℕ → Type 0) (h : PeerHandle) (frame : RelayFrame) (n : Net)
      → P h.tx
      → Sends net P n (forward_frame net h frame n)
  unfolding forward_frame
  Sends-forward_frame P h frame n p = Sends-send_or_close net h (to_outbound frame) n p

  Sends-forward_all :
      (P : ℕ → Type 0) (targets : List PeerHandle) (frame : RelayFrame) (n : Net)
      → ((h : PeerHandle) → Elem h targets → P h.tx)
      → Sends net P n (forward_all net targets frame n)
  unfolding forward_all each
  Sends-forward_all P [] frame n p = nothing
  Sends-forward_all P (t ∷ ts) frame n p =
      Sends-trans net (Sends-forward_frame P t frame n (p t here))
        (Sends-forward_all P ts frame (forward_frame net t frame n) (λ h e. p h (there e)))

  -- The slot's handle, if there is one, is a target.
  Sends-forward_slot :
      (P : ℕ → Type 0) (slot : Option PeerHandle) (frame : RelayFrame) (n : Net)
      → ((h : PeerHandle) → slot ≡ some h → P h.tx)
      → Sends net P n (forward_slot net slot frame n)
  unfolding forward_slot
  Sends-forward_slot P none frame n p = nothing
  Sends-forward_slot P (some h) frame n p = Sends-forward_frame P h frame n (p h refl)

-- A handle in a slot is of the slot's kind.
Slot-kind :
    {kind : PeerKind} (slot : Option PeerHandle) {h : PeerHandle}
    → Slot kind slot
    → slot ≡ some h
    → h.meta.kind ≡ kind
Slot-kind none t e = cc
Slot-kind (some x) t e = ground arith

pub All-Elem {ℓ κ} :
    {A : Type ℓ} (P : A → Type κ) (xs : List A) {a : A} → All P xs → Elem a xs → P a
All-Elem P [] h e = elim e [ ]
All-Elem P (x ∷ xs) h here = h.0
All-Elem P (x ∷ xs) h (there e) = All-Elem P xs h.1 e

module _ (net : Channels OutboundMessage) (json : Json) (limits : RelayLimitsConfig) where
  open net use {Net, queued}

  Sends-answer_ping :
      (meta : PeerMeta) (ts : ℕ) (s : SessionState) (n : Net)
      → WellFormed limits s
      → (slot : Option PeerHandle) → s.server_control ≡ slot
      → Sends net (IsTarget v2_server_control s) n (answer_ping net json meta ts slot n)
  unfolding answer_ping
  Sends-answer_ping meta ts s n w none e = nothing
  Sends-answer_ping meta ts s n w (some h) e = elim (Bool-cases (h.meta.peer_id == meta.peer_id)) [
    | inl own ↦
        rw own (Sends-send_or_close net h _ n (h, in_control e, Slot-kind _ w.at_control e, refl))
    | inr other ↦ rw other nothing
  ]

  clients_kind :
      (id : Text) (c : HashMap PeerId PeerHandle) (s : SessionState) (h : PeerHandle)
      → WellFormed limits s
      → get id s.clients ≡ some c
      → Elem h (values c)
      → h.meta.kind ≡ v2_client id
  clients_kind id c s h w e m =
      All-Elem (λ h. h.meta.kind ≡ v2_client id) (values c)
        (Entries-values _ c
          (Entries-weaken _ _ c (λ k v p. p.0) (Entries-get _ id s.clients w.at_clients e).typed))
        m

  pub Sends-route_frame :
      (meta : PeerMeta) (ts : ℕ) (version : RelayVersion) (kind : PeerKind) (frame : RelayFrame)
      (s : SessionState) (n : Net)
      → WellFormed limits s
      → Sends net (IsTarget kind s) n (route_frame net json meta ts version kind frame s n).1
  unfolding route_frame
  Sends-route_frame meta ts v1 v1_server frame s n w =
      Sends-forward_slot net _ s.v1_client frame n
        (λ h e. (h, in_v1_client e, Slot-kind _ w.at_v1_client e, refl))
  Sends-route_frame meta ts v1 v1_client frame s n w =
      Sends-forward_slot net _ s.v1_server frame n
        (λ h e. (h, in_v1_server e, Slot-kind _ w.at_v1_server e, refl))
  Sends-route_frame meta ts v2 v2_server_control (RelayFrame.text t) s n w =
      elim (Bool-cases (text_is_ping json t)) [
        | inl ping ↦ rw ping (Sends-answer_ping meta ts s n w s.server_control refl)
        | inr other ↦ rw other nothing
      ]
  Sends-route_frame meta ts v2 v2_server_control (RelayFrame.binary b) s n w = nothing
  Sends-route_frame meta ts v2 (v2_client id) frame s n w =
      elim (Option-cases (get id s.server_data)) [
        | inl absent ↦ rw (absent, route_frame) nothing
        | inr (h, e) ↦
            rw (e, route_frame)
              (Sends-forward_frame net _ h frame n
                (h, in_data id e, Entries-get _ id s.server_data w.at_data e, refl))
      ]
  Sends-route_frame meta ts v2 (v2_server_data id) frame s n w =
      elim (Option-cases (get id s.clients)) [
        | inl absent ↦ rw (absent, route_frame) nothing
        | inr (c, e) ↦
            rw (e, route_frame)
              (Sends-forward_all net _ (values c) frame n
                (λ h m. (h, in_clients id c e m, clients_kind id c s h w e m, refl)))
      ]
  Sends-route_frame meta ts _ _ frame s n w = nothing

  -- In a well-formed session, handling a frame of a peer leaves the queue of every channel as it
  -- was that is not the channel of a handle in the session which is a counterpart of the peer: v1
  -- server and v1 client are each other's, a control socket its own kind's, and the clients and the
  -- server data sockets of one connection id are each other's.
  pub handle_frame_isolated :
      (meta : PeerMeta) (ts : ℕ) (frame : RelayFrame) (s : SessionState) (n : Net) (d : ℕ)
      → WellFormed limits s
      → ((h : PeerHandle) → InSession h s → Counterpart meta.kind h.meta.kind → h.tx ≢ d)
      → queued d (handle_frame net json meta ts frame s n).1 ≡ queued d n
  unfolding handle_frame
  handle_frame_isolated meta ts frame s n d w other =
      Sends-other net d (λ c (h, i, k, e). rw e at (other h i k))
        (Sends-route_frame meta ts meta.version meta.kind frame s n w)
