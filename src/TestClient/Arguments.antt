-- ===== src/TestClient/Arguments.antt =====
-- What the arguments of crates/relay/src/bin/relay-test-client.rs come to.
use node_access.Prelude.{◌∙◌}
use node_access.Prelude.{
  ◌<◌, ◌≡◌, refl, ap, Option, none, some, List, [], ◌∷◌, Text, str, text_eq, text_Eq, to_string,
  parse_int-to_string,
}
use node_access.Protocol.{ok}
use node_access.TestClient.{
  Settings, default_settings, usize_bound, with_count, set_option, parse_options,
}

abbrev pub optional : Text → Option Text → List Text → List Text
optional arg none args = args
optional arg (some value) args = arg ∷ value ∷ args

-- The arguments that ask for the settings.
abbrev pub args_of : Settings → List Text
args_of s =
    str "--base-url"
    ∷ s.base_url
    ∷ str "--version"
    ∷ s.version
    ∷ str "--receive-count"
    ∷ to_string s.receive_count
    ∷ optional (str "--server-id") s.server_id (
        optional (str "--connection-id") s.connection_id
          (optional (str "--send-text") s.send_text []))

with_text :
    (text : Option Text) (s : Settings)
    → s.send_text ≡ none
    → parse_options (optional (str "--send-text") text []) s ≡ ok (record s { send_text = text })
unfolding parse_options set_option text_eq
with_text none s e = ap (λ (text : Option Text). ok (record s { send_text = text })) e
with_text (some text) s e = refl

with_connection :
    (id text : Option Text) (s : Settings)
    → s.connection_id ≡ none
    → s.send_text ≡ none
    → parse_options (optional (str "--connection-id") id (optional (str "--send-text") text [])) s
      ≡ ok (record s { connection_id = id; send_text = text })
unfolding parse_options set_option text_eq
with_connection none text s c e =
    with_text text s e
    ∙ ap (λ (id : Option Text). ok (record s { connection_id = id; send_text = text })) c
with_connection (some id) text s c e = with_text text (record s { connection_id = some id }) e

with_server :
    (server_id id text : Option Text) (s : Settings)
    → s.server_id ≡ none
    → s.connection_id ≡ none
    → s.send_text ≡ none
    → parse_options
        (optional
          (str "--server-id")
          server_id
          (optional (str "--connection-id") id (optional (str "--send-text") text [])))
        s
      ≡ ok (record s { server_id = server_id; connection_id = id; send_text = text })
unfolding parse_options set_option text_eq
with_server none id text s n c e =
    with_connection id text s c e
    ∙ ap
        (λ (server_id : Option Text).
          ok (record s { server_id = server_id; connection_id = id; send_text = text }))
        n
with_server (some server_id) id text s n c e =
    with_connection id text (record s { server_id = some server_id }) c e

-- Arguments that ask for settings are read as those settings, for every count that a `usize` holds.
pub parse_options-args_of :
    (s : Settings)
    → s.receive_count < usize_bound
    → parse_options (args_of s) default_settings ≡ ok s
unfolding parse_options set_option with_count text_eq
parse_options-args_of s h =
    rw (parse_int-to_string usize_bound s.receive_count h, with_count)
      (with_server s.server_id s.connection_id s.send_text
        (record default_settings {
          base_url = s.base_url;
          version = s.version;
          receive_count = s.receive_count;
        })
        refl refl refl)
