-- ===== src/Node/LoopTests.antt =====
-- Witnesses of the theorems on the nodes' loops.
use node_access.Prelude.{
  ◌⊎◌, ◌≡◌, refl, true, false, none, some, List, [], ◌∷◌, ◌++◌, map, All, Text, str, text_eq,
  text_Eq,
}
use node_access.HashMap.{get}
use node_access.Runtime.Samples.{sample_json}
use node_access.Session.Ops.{sync_text, connected_text}
use node_access.Mux.Frame.{visit, bind, info, control_frame, provider_connect}
use node_access.Mux.Endpoint.{Endpoint, VirtualStream}
use node_access.Node.Mapping.{TcpMapping}
use node_access.Node.Relay.{new_relay, open_on, rejected, handle_visit}
use node_access.Node.Serve.{ServeState}
use node_access.Node.Select.{Branch, takes_stream, takes_message, sees_closed}
use node_access.Node.Data.{run_data_connection, relay_end}
use node_access.Node.Access.{access_end, provider_stream, target_table, connects}
use node_access.Node.Binding.{IsOpen, last_named, bound_to, ack_of}
use node_access.Node.Binding.Visits.{
  after_binds, access_binds_registered, Takes, visit_reaches_provider,
}
use node_access.Node.Control.{
  takes_bind, finishes, ControlInput, failed, other, text, task, finished, read_error, run_control,
}
use node_access.Node.Starts.Notes.{is_active, count, begins, runs, told}
use node_access.Node.Starts.{run_control_starts_once}
use node_access.Node.Stops.{run_control_stops}
use node_access.Node.Served.{run_served_data_connection}
use node_access.Node.Served.Refinement.{common, served_loop_refines_relay}

abbrev id : Text
id = str "access-laptop"

abbrev web : TcpMapping
web = record { name = str "web"; addr = str "127.0.0.1:80"; auth = none }

abbrev ssh : TcpMapping
ssh = record { name = str "ssh"; addr = str "127.0.0.1:22"; auth = some (str "key") }

abbrev services : List TcpMapping
services = web ∷ ssh ∷ []

nothing_bound : All (λ p. IsOpen id new_relay p.name) services
unfolding get
nothing_bound = (λ p e. absurd (cc e), (λ p e. absurd (cc e), tt))

access_binds_registered_example :
    let r = after_binds 7 id services new_relay in
    ((access_end services).0 ≡ true)
    × (r.1.1.1.outbound ≡ map (λ p. control_frame (ack_of p)) services)
    × ((name : Text)
        → get name r.1.1.0.providers
          ≡ bound_to 7 id (last_named name services) (get name new_relay.providers))
access_binds_registered_example = access_binds_registered 7 id services new_relay nothing_bound

abbrev stream : VirtualStream
stream = record { stream_id = 2; inbound = 0; read_buffer = []; sent_close = false }

visit_reaches_provider_example :
    let visited =
      handle_visit (str "ssh") (some (str "key")) (after_binds 7 id services new_relay).1.1.0 in
    ((Takes (some (str "key")) (some (str "key"))
        × (visited ≡ open_on 7 (provider_connect (str "ssh"))))
      ⊎ ((¬ (Takes (some (str "key")) (some (str "key")))) × (visited ≡ rejected)))
    × (provider_stream (target_table services []) (provider_connect (str "ssh")) stream relay_end
        ≡ (connects stream (str "ssh") (str "127.0.0.1:22"), relay_end))
unfolding last_named text_eq
visit_reaches_provider_example =
    visit_reaches_provider 7 id services new_relay (str "ssh") (some (str "key")) ssh
      (provider_connect (str "ssh")) stream relay_end nothing_bound refl refl

-- The task of `a` binds a service and ends, and `a` is named once more.
abbrev inputs : List ControlInput
inputs =
    text (sync_text sample_json (str "a" ∷ str "b" ∷ []))
    ∷ other
    ∷ text (connected_text sample_json (str "a"))
    ∷ task (takes_bind 3 (str "a") (str "web") none)
    ∷ task (finishes (str "a"))
    ∷ text (connected_text sample_json (str "a"))
    ∷ []

run_control_starts_once_example :
    let r = run_control sample_json inputs new_relay in
    (count (str "a") r.started
      ≡ begins (is_active (str "a") new_relay) (told sample_json (str "a") inputs))
    × (is_active (str "a") r.state
        ≡ runs (is_active (str "a") new_relay) (told sample_json (str "a") inputs))
run_control_starts_once_example = run_control_starts_once sample_json inputs (str "a") new_relay

run_control_stops_example :
    let r = run_control sample_json (other ∷ []) new_relay in
    (run_control sample_json ((other ∷ []) ++ failed ∷ inputs) new_relay
      ≡ record r { ended = read_error })
    × (r.ended ≡ finished)
run_control_stops_example =
    run_control_stops sample_json (other ∷ []) failed inputs new_relay (refl, tt) refl

-- An access node has opened a stream and bound a service.
abbrev at_work : Endpoint
at_work = record {
  reader = record {
    streams = (1, 0) ∷ [];
    channels = 1;
    sent = [];
    incoming = record { request = visit (str "web") none; stream_id = 1; inbound = 0 } ∷ [];
    control = bind (str "ssh") none ∷ info (str "hello") ∷ [];
    closed = true;
  };
  next_stream_id = 2;
  outbound = [];
  writer_open = true;
}

abbrev serving : ServeState
serving = record { active_connections = (id, tt) ∷ []; local_providers = []; providers = [] }

abbrev branches : List Branch
branches = takes_message ∷ takes_stream ∷ takes_stream ∷ takes_message ∷ sees_closed ∷ []

served_loop_refines_relay_example :
    let r = run_served_data_connection 7 id branches (serving, at_work) in
    (r.0, (r.1.0, common r.1.1)) ≡ run_data_connection 7 id branches (common (serving, at_work))
served_loop_refines_relay_example = served_loop_refines_relay 7 id branches (serving, at_work)
