-- ===== src/Node/Pair/Turns.antt =====
-- The turns of the loops of an access node and of a relay node of crates/node-access-3role, where
-- each has been told what it expects.
use node_access.Prelude.{
  ℕ, ◌≡◌, ◌≢◌, refl, sym, subst, ◌∙◌, ap, Bool-cases, true, false, Option, Option-cases, none, some,
  inl, inr, List, [], Text, text_Eq, ◌==◌,
}
use node_access.HashMap.{get}
use node_access.HashMap.Entries.{Entries, Entries-insert}
use node_access.Mux.Frame.{
  OpenRequest, socks, visit, provider_connect, ControlMessage, bind, bind_ack, info,
}
use node_access.Mux.Endpoint.{Endpoint, VirtualStream, into_stream}
use node_access.Mux.Link.{tells, apply}
use node_access.Node.Mapping.{TcpMapping}
use node_access.Node.Relay.{ProviderEndpoint, RelayState, register_provider, bind_over, handle_bind}
use node_access.Node.Select.{
  Branch, takes_stream, takes_message, sees_closed, goes_on, recv_stream, recv_message,
}
use node_access.Node.Data.{
  Act, DataState, data_branch, stream_act, take_message, answered, serves_socks5, visits, has_bound,
}
use node_access.Node.Access.{
  AccessAct, access_branch, target_table, provider_stream, connect_target, access_message, connects,
  registered, registration_rejected,
}
use node_access.Node.Pair.{IsAsked}
use node_access.Node.Pair.Frames.{
  Sends, Told, apply-Sends, apply-Told, recv_stream-Told, recv_message-Told,
}

-- A bind that is answered.
abbrev pub IsAck : ControlMessage → Type 0
IsAck (bind_ack name ok error) = Unit
IsAck _ = ⊥

module _ (mux : ℕ) (providers : List TcpMapping) where
  -- The access node has an address for the name.
  abbrev pub IsKnown : Text → Type 0
  IsKnown name = get name (target_table providers []) ≢ none

  abbrev pub IsBind : ControlMessage → Type 0
  IsBind (bind name auth) = IsKnown name
  IsBind _ = ⊥

  abbrev pub IsProvided : OpenRequest → Type 0
  IsProvided (provider_connect name) = IsKnown name
  IsProvided _ = ⊥

  -- A provider of the connection.
  abbrev pub Owned : Text → ProviderEndpoint → Type 0
  Owned name p = p.mux ≡ mux → IsKnown name

  -- What a turn of the access node's loop may come to.
  abbrev pub IsExpected : AccessAct → Type 0
  IsExpected (connects stream name target) = Unit
  IsExpected (registered name) = Unit
  IsExpected (registration_rejected name error) = Unit
  IsExpected _ = ⊥

  -- What a turn of the relay node's loop may come to.
  abbrev pub IsServed : Act → Type 0
  IsServed (serves_socks5 stream) = Unit
  IsServed (visits name auth stream) = Unit
  IsServed (has_bound answer) = Unit
  IsServed _ = ⊥

  message-IsExpected :
      (message : ControlMessage) → IsAck message → IsExpected (access_message message)
  unfolding access_message
  message-IsExpected (bind_ack name true error) a = tt
  message-IsExpected (bind_ack name false error) a = tt
  message-IsExpected (bind name auth) a = elim a [ ]
  message-IsExpected (info message) a = elim a [ ]

  stream-IsExpected :
      (request : OpenRequest) (stream : VirtualStream) (e : Endpoint)
      → IsProvided request
      → let r = provider_stream (target_table providers []) request stream e in
        IsExpected r.0 × (r.1 ≡ e)
  unfolding provider_stream connect_target
  stream-IsExpected socks stream e k = elim k [ ]
  stream-IsExpected (visit name auth) stream e k = elim k [ ]
  stream-IsExpected (provider_connect name) stream e k =
      elim (Option-cases (get name (target_table providers []))) [
        | inl y ↦ absurd (k y)
        | inr (target, y) ↦ rw (y, connect_target) (tt, refl)
      ]

  turned : {A S : Type 0} (a b : A) (s t : S) → goes_on a s ≡ goes_on b t → (a ≡ b) × (s ≡ t)
  turned a b s t e = (cc e, cc e)

  pub access_turn-Sound :
      (branch : Branch) (act : AccessAct) (e e' : Endpoint)
      → access_branch (target_table providers []) branch e ≡ goes_on act e'
      → Sends IsAsked IsBind e
      → Told IsProvided IsAck e.reader
      → IsExpected act × Sends IsAsked IsBind e' × Told IsProvided IsAck e'.reader
  unfolding access_branch
  access_turn-Sound takes_stream act e e' q up t = elim (Option-cases (recv_stream e)) [
    | inl y ↦ absurd (let z = rw (access_branch, y) at q in cc z)
    | inr ((stream, rest), y) ↦
        let (asked, told_rest, same) = recv_stream-Told IsProvided IsAck e stream rest y t in
        let (fits, kept) = stream-IsExpected stream.request (into_stream stream) rest asked in
        let z = rw (access_branch, y) at q in
        let (act_is, e_is) = turned _ act _ e' z in
        (
          subst IsExpected act_is fits,
          subst (Sends IsAsked IsBind) (sym kept ∙ e_is) (rw same up),
          subst (λ (x : Endpoint). Told IsProvided IsAck x.reader) (sym kept ∙ e_is) told_rest,
        )
  ]
  access_turn-Sound takes_message act e e' q up t = elim (Option-cases (recv_message e)) [
    | inl y ↦ absurd (let z = rw (access_branch, y) at q in cc z)
    | inr ((message, rest), y) ↦
        let (ack, told_rest, same) = recv_message-Told IsProvided IsAck e message rest y t in
        let z = rw (access_branch, y) at q in
        let (act_is, e_is) = turned _ act _ e' z in
        (
          subst IsExpected act_is (message-IsExpected message ack),
          subst (Sends IsAsked IsBind) e_is (rw same up),
          subst (λ (x : Endpoint). Told IsProvided IsAck x.reader) e_is told_rest,
        )
  ]
  access_turn-Sound sees_closed act e e' q up t = elim (Bool-cases e.reader.closed) [
    | inl y ↦ absurd (let z = rw y at q in cc z)
    | inr y ↦ absurd (let z = rw y at q in cc z)
  ]

  pub bind_over-Owned :
      (o : Option ProviderEndpoint) (other : ℕ) (id name : Text) (auth : Option Text)
      (s : RelayState)
      → (other ≡ mux → IsKnown name)
      → Entries Owned s.providers
      → Entries Owned (bind_over o other id name auth s).1.providers
        × IsAck (bind_over o other id name auth s).0
  unfolding bind_over register_provider
  bind_over-Owned none other id name auth s k h = (Entries-insert Owned name _ s.providers k h, tt)
  bind_over-Owned (some existing) other id name auth s k h =
      elim (Bool-cases (existing.connection_id == id)) [
        | inl y ↦ rw y (Entries-insert Owned name _ s.providers k h, tt)
        | inr y ↦ rw y (h, tt)
      ]

  relay_message-Sound :
      (id : Text) (message : ControlMessage) (act : Act) (s : RelayState) (e : Endpoint)
      (r : DataState)
      → take_message mux id message (s, e) ≡ goes_on act r
      → IsBind message
      → Sends IsProvided IsAck e
      → Told IsAsked IsBind e.reader
      → Entries Owned s.providers
      → IsServed act
        × Sends IsProvided IsAck r.1
        × Told IsAsked IsBind r.1.reader
        × Entries Owned r.0.providers
  unfolding take_message answered handle_bind apply
  relay_message-Sound id (bind_ack name ok error) act s e r q k down t h = elim k [ ]
  relay_message-Sound id (info message) act s e r q k down t h = elim k [ ]
  relay_message-Sound id (bind name auth) act s e r q k down t h =
      let o = get name s.providers in
      let (kept, ack) = bind_over-Owned o mux id name auth s (λ same. k) h in
      let answer = (bind_over o mux id name auth s).0 in
      let (act_is, r_is) = turned _ act _ r q in
      (
        subst IsServed act_is tt,
        subst (λ (r : DataState). Sends IsProvided IsAck r.1) r_is
            (apply-Sends IsProvided IsAck (tells answer) e ack down),
        subst (λ (r : DataState). Told IsAsked IsBind r.1.reader) r_is
            (apply-Told IsAsked IsBind (tells answer) e t),
        subst (λ (r : DataState). Entries Owned r.0.providers) r_is kept,
      )

  stream-IsServed :
      (request : OpenRequest) (stream : VirtualStream) (e : Endpoint)
      → IsAsked request
      → let r = stream_act request stream e in IsServed r.0 × (r.1 ≡ e)
  unfolding stream_act
  stream-IsServed socks stream e k = (tt, refl)
  stream-IsServed (visit name auth) stream e k = (tt, refl)
  stream-IsServed (provider_connect name) stream e k = elim k [ ]

  pub relay_turn-Sound :
      (id : Text) (branch : Branch) (act : Act) (s : RelayState) (e : Endpoint) (r : DataState)
      → data_branch mux id branch (s, e) ≡ goes_on act r
      → Sends IsProvided IsAck e
      → Told IsAsked IsBind e.reader
      → Entries Owned s.providers
      → IsServed act
        × Sends IsProvided IsAck r.1
        × Told IsAsked IsBind r.1.reader
        × Entries Owned r.0.providers
  unfolding data_branch
  relay_turn-Sound id takes_stream act s e r q down t h = elim (Option-cases (recv_stream e)) [
    | inl y ↦ absurd (let z = rw (data_branch, y) at q in cc z)
    | inr ((stream, rest), y) ↦
        let (asked, told_rest, same) = recv_stream-Told IsAsked IsBind e stream rest y t in
        let (fits, kept) = stream-IsServed stream.request (into_stream stream) rest asked in
        let z = rw (data_branch, y) at q in
        let (act_is, r_is) = turned _ act _ r z in
        let end = ap (λ (r : DataState). r.1) r_is in
        (
          subst IsServed act_is fits,
          subst (Sends IsProvided IsAck) (sym kept ∙ end) (rw same down),
          subst (λ (x : Endpoint). Told IsAsked IsBind x.reader) (sym kept ∙ end) told_rest,
          subst (λ (r : DataState). Entries Owned r.0.providers) r_is h,
        )
  ]
  relay_turn-Sound id takes_message act s e r q down t h = elim (Option-cases (recv_message e)) [
    | inl y ↦ absurd (let z = rw (data_branch, y) at q in cc z)
    | inr ((message, rest), y) ↦
        let (asked, told_rest, same) = recv_message-Told IsAsked IsBind e message rest y t in
        let z = rw (data_branch, y) at q in
        relay_message-Sound id message act s rest r z asked (rw same down) told_rest h
  ]
  relay_turn-Sound id sees_closed act s e r q down t h = elim (Bool-cases e.reader.closed) [
    | inl y ↦ absurd (let z = rw y at q in cc z)
    | inr y ↦ absurd (let z = rw y at q in cc z)
  ]
