-- ===== src/Session/Nudge.antt =====
-- `nudge_or_reset_control` of crates/relay/src/session.rs. The task takes the session's mutex at
-- six points, and other operations may come in between: a visit is the session that the task finds
-- at its next point, and what the others have done to the network since the last one.
use node_access.Prelude.{
  ◌≡◌, refl, Bool, Bool-cases, true, false, not, ◌&&◌, Option, none, some, inl, inr, List, [], ◌∷◌,
  Text, str, text_Eq, if◌then◌else◌, is_empty,
}
use node_access.HashMap.{get}
use node_access.Runtime.{Channels, Json}
use node_access.Session.State.{OutboundMessage, close, PeerHandle, SessionState}
use node_access.Session.Effects.{Told, try_send-Offered, notify_control_locked-Told}
use node_access.Session.Ops.{
  close_handle, notify_control_locked, collect_client_connection_ids, sync_text,
}

unfoldable pub has_client_socket : SessionState → Text → Bool
has_client_socket s id = elim (get id s.clients) [
  | none ↦ false
  | some clients ↦ not (is_empty clients)
]

unfoldable pub has_server_data_socket : SessionState → Text → Bool
has_server_data_socket s id = elim (get id s.server_data) [ none ↦ false | some h ↦ true ]

-- Where the task stands: at its first checks, at the sync, at its second checks, at the reset, or
-- at its end.
pub data Stage : Type 0 where
  first_client first_data sync second_client second_data reset over : Stage

module _ (net : Channels OutboundMessage) (json : Json) where
  open net use {Net}

  unfoldable pub send_sync_to_control : SessionState → Net → Net
  send_sync_to_control s n =
      notify_control_locked net s (sync_text json (collect_client_connection_ids s)) n

  unfoldable pub reset_control : Option PeerHandle → Net → Net
  reset_control none n = n
  reset_control (some control) n = close_handle net control 1011 (str "Control unresponsive") n

  unfoldable pub nudge_step : Text → Stage → SessionState → Net → Stage × Net
  unfolding reset_control
  nudge_step id first_client s n = (if has_client_socket s id then first_data else over, n)
  nudge_step id first_data s n = (if has_server_data_socket s id then over else sync, n)
  nudge_step id sync s n = (second_client, send_sync_to_control s n)
  nudge_step id second_client s n = (if has_client_socket s id then second_data else over, n)
  nudge_step id second_data s n = (if has_server_data_socket s id then over else reset, n)
  nudge_step id reset s n = (over, reset_control s.server_control n)
  nudge_step id over s n = (over, n)

  abbrev pub Visit : Type 0
  Visit = SessionState × (Net → Net)

  unfoldable pub nudge : Text → Stage → List Visit → Net → Stage × Net
  unfolding nudge_step
  nudge id stage [] n = (stage, n)
  nudge id stage ((s, others) ∷ visits) n =
      let r = nudge_step id stage s (others n) in nudge id r.0 visits r.1

  send_sync_to_control-Told :
      (s : SessionState) (n : Net)
      → Told net s.server_control
          (OutboundMessage.text (sync_text json (collect_client_connection_ids s)))
          n
          (send_sync_to_control s n)
  unfolding send_sync_to_control
  send_sync_to_control-Told s n = notify_control_locked-Told net s.server_control s _ n refl

  reset_control-Told :
      (control : Option PeerHandle) (n : Net)
      → Told net control (close 1011 (str "Control unresponsive")) n (reset_control control n)
  unfolding reset_control close_handle
  reset_control-Told none n = refl
  reset_control-Told (some control) n =
      try_send-Offered net control.tx (close 1011 (str "Control unresponsive")) n

  -- Whatever others do between its visits, the task is over after six. Where it finds a client of
  -- its connection and then no server data socket, it offers the ids of the connections with clients
  -- to the control socket of its third visit; where it has done so and finds a client again and no
  -- server data socket, it offers the close 1011 to the control socket of its last visit. A message
  -- that is offered is put behind the queue of that socket's channel if the channel has room.
  -- Otherwise the task changes nothing.
  pub nudge_outcome :
      (id : Text) (s1 s2 s3 s4 s5 s6 : SessionState) (f1 f2 f3 f4 f5 f6 : Net → Net) (n : Net)
      → let asks = has_client_socket s1 id && not (has_server_data_socket s2 id) in
        let resets = asks && (has_client_socket s4 id && not (has_server_data_socket s5 id)) in
        let visits : List Visit =
          (s1, f1) ∷ (s2, f2) ∷ (s3, f3) ∷ (s4, f4) ∷ (s5, f5) ∷ (s6, f6) ∷ [] in
        let r = nudge id first_client visits n in
        let found = f3 (f2 (f1 n)) in
        (r.0 ≡ over)
        × (synced : Net) × Told net
            (if asks then s3.server_control else none)
            (OutboundMessage.text (sync_text json (collect_client_connection_ids s3)))
            found
            synced
        × Told net
            (if resets then s6.server_control else none)
            (close 1011 (str "Control unresponsive"))
            (f6 (f5 (f4 synced)))
            r.1
  unfolding nudge
  nudge_outcome id s1 s2 s3 s4 s5 s6 f1 f2 f3 f4 f5 f6 n =
      let found = f3 (f2 (f1 n)) in
      let synced = send_sync_to_control s3 found in
      let asked = send_sync_to_control-Told s3 found in
      elim (Bool-cases (has_client_socket s1 id)) [
        | inr c ↦ rw (c) (refl, found, refl, refl)
        | inl c ↦ elim (Bool-cases (has_server_data_socket s2 id)) [
          | inl d ↦ rw (c, d) (refl, found, refl, refl)
          | inr d ↦ elim (Bool-cases (has_client_socket s4 id)) [
            | inr c4 ↦ rw (c, d, c4) (refl, synced, asked, refl)
            | inl c4 ↦ elim (Bool-cases (has_server_data_socket s5 id)) [
              | inl d5 ↦ rw (c, d, c4, d5) (refl, synced, asked, refl)
              | inr d5 ↦
                  rw (c, d, c4, d5)
                    (
                      refl,
                      synced,
                      asked,
                      reset_control-Told s6.server_control (f6 (f5 (f4 synced))),
                    )
            ]
          ]
        ]
      ]
