-- ===== src/TestClient.antt =====
-- crates/relay/src/bin/relay-test-client.rs: its arguments, the URL that it connects to, and what
-- it prints of what it receives. `debug` is the print of a message by `{:?}`.
pub mod Arguments
pub mod Joining
pub mod Receiving
mod Tests
use node_access.Prelude.{
  ℕ, zero, suc, ◌^◌, Bool, true, false, ◌||◌, Option, none, some, List, [], ◌∷◌, ◌++◌, Text, str,
  text_Eq, ◌==◌, if◌then◌else◌, ParsedInt, number, not_int, parse_int,
}
use node_access.Protocol.{Result, ok, err}
use node_access.Config.{int_error, ◌>>=◌}
use node_access.Mux.Frame.{Bytes}

-- What the options set.
pub record Settings : Type 0 where
  pub base_url : Text
  pub server_id : Option Text
  pub connection_id : Option Text
  pub send_text : Option Text
  pub version : Text
  pub receive_count : ℕ

abbrev pub default_settings : Settings
default_settings = record {
  base_url = str "ws://127.0.0.1:8787";
  server_id = none;
  connection_id = none;
  send_text = none;
  version = str "2";
  receive_count = 1;
}

-- A `usize` holds the numbers below this one.
abbrev pub usize_bound : ℕ
usize_bound = 2 ^ 64

with_count : Settings → ParsedInt → Result Settings
with_count s (number n) = ok (record s { receive_count = n })
with_count s (not_int error) = err (int_error error)

unfoldable pub unknown_arg : Text → Text
unknown_arg other = str "unknown arg: " ++ other

-- An option with a value behind it.
unfoldable pub set_option : Text → Text → Settings → Result Settings
unfolding with_count int_error unknown_arg
set_option arg value s =
    if arg == str "--base-url"
    then ok (record s { base_url = value })
    else if arg == str "--server-id"
    then ok (record s { server_id = some value })
    else if arg == str "--connection-id"
    then ok (record s { connection_id = some value })
    else if arg == str "--send-text"
    then ok (record s { send_text = some value })
    else if arg == str "--version"
    then ok (record s { version = value })
    else if arg == str "--receive-count"
    then with_count s (parse_int usize_bound value)
    else err (unknown_arg arg)

unfoldable pub is_option : Text → Bool
is_option arg =
    arg == str "--base-url"
    || arg == str "--server-id"
    || arg == str "--connection-id"
    || arg == str "--send-text"
    || arg == str "--version"
    || arg == str "--receive-count"

-- The loop over the arguments behind the mode.
unfoldable pub parse_options : List Text → Settings → Result Settings
unfolding set_option is_option unknown_arg
parse_options [] s = ok s
parse_options (arg ∷ []) s =
    err (if is_option arg then str "missing " ++ (arg ++ str " value") else unknown_arg arg)
parse_options (arg ∷ value ∷ args) s = set_option arg value s >>= parse_options args

-- The socket that it opens, what it sends first, and how much it waits for.
pub record Plan : Type 0 where
  pub url : Text
  pub send_text : Option Text
  pub receive_count : ℕ

unfoldable pub role_of : Text → Result Text
role_of mode =
    if mode == str "control"
    then ok (str "server")
    else if mode == str "server-data"
    then ok (str "server")
    else if mode == str "client"
    then ok (str "client")
    else err (str "mode must be one of: control | server-data | client")

unfoldable pub required : Text → Option Text → Result Text
required message none = err message
required message (some value) = ok value

is_some : Option Text → Bool
is_some none = false
is_some (some value) = true

-- What is put behind the query.
unfoldable pub connection_part : Text → Option Text → Result Text
unfolding is_some required
connection_part mode connection_id =
    let part = required (str "missing --connection-id") connection_id >>= λ id.
    ok (str "&connectionId=" ++ id) in
    if mode == str "server-data" || is_some connection_id then part else ok []

unfoldable pub plan_of : Text → Settings → Result Plan
unfolding required role_of connection_part
plan_of mode s = do
  server_id ← required (str "missing --server-id") s.server_id
  role ← role_of mode
  part ← connection_part mode s.connection_id
  ok (record {
    url =
        s.base_url
        ++ (str "/ws?serverId="
            ++ (server_id ++ (str "&role=" ++ (role ++ (str "&v=" ++ (s.version ++ part))))));
    send_text = s.send_text;
    receive_count = s.receive_count;
  })

-- `main` as far as the connection.
unfoldable pub client_plan : List Text → Result Plan
unfolding parse_options plan_of
client_plan [] = err (str "missing mode: control | server-data | client")
client_plan (mode ∷ args) = parse_options args default_settings >>= plan_of mode

pub data TestMessage : Type 0 where
  text : Text → TestMessage
  binary : Bytes → TestMessage
  close : Text → TestMessage
  other : Text → TestMessage
  failed timed_out : TestMessage

-- How the loop ends: as it should, by an error of the socket, or because nothing came in time.
pub data LoopEnd : Type 0 where
  done socket_error elapsed : LoopEnd

-- What is printed, and the end.
abbrev pub Printed : Type 0
Printed = List Text × LoopEnd

module _ (debug : Bytes → Text) where
  -- Of a message that is neither a text nor bytes, its print is what came.
  unfoldable pub receive_loop : ℕ → List TestMessage → Printed
  receive_loop zero incoming = ([], done)
  receive_loop (suc n) [] = ([], done)
  receive_loop (suc n) (text t ∷ incoming) = let r = receive_loop n incoming in (t ∷ r.0, r.1)
  receive_loop (suc n) (binary bytes ∷ incoming) =
      let r = receive_loop n incoming in (debug bytes ∷ r.0, r.1)
  receive_loop (suc n) (close frame ∷ incoming) = ((str "closed: " ++ frame) ∷ [], done)
  receive_loop (suc n) (other message ∷ incoming) =
      let r = receive_loop n incoming in (message ∷ r.0, r.1)
  receive_loop (suc n) (failed ∷ incoming) = ([], socket_error)
  receive_loop (suc n) (timed_out ∷ incoming) = ([], elapsed)
