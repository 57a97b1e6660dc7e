-- ===== src/Config/Tests.antt =====
-- Witnesses of the theorems on the configuration.
use node_access.Prelude.{
  ◌≡◌, refl, false, inl, inr, none, some, Text, str, text_eq, text_Eq, ◌==◌, if◌then◌else◌, trim,
  to_string, parse_int, parse_digits, is_digit, arith,
}
use node_access.Protocol.{Result, ok}
use node_access.Session.State.{default_timings, default_limits}
use node_access.Config.{
  Env, RelayConfig, from_env, var_or, parse_socket_addr, addr_or, parse_bool, bool_of,
  to_ascii_lowercase, parse_usize, int_or,
}
use node_access.Config.Reading.{Given, from_env-Given}
use node_access.Config.Errors.{Blames, from_env-Blames}

-- An address is any text.
abbrev read_addr : Text → Result Text
read_addr t = ok t

-- Nothing is set but the limit on clients.
abbrev roomy : Env
roomy key = if key == str "RELAY_MAX_CLIENTS_PER_CONNECTION" then some (to_string 32) else none

-- What it gives: the defaults of crates/relay/src/session.rs but for that limit.
abbrev roomy_config : RelayConfig Text read_addr
roomy_config = record {
  bind_addr = str "127.0.0.1:8787";
  log_filter = str "info";
  diagnostics = false;
  timings = default_timings;
  limits = record default_limits { max_clients_per_connection = 32 };
}

roomy-Given : Given Text read_addr roomy roomy_config
unfolding var_or text_eq
roomy-Given = record {
  bind_given = refl;
  log_given = inr (refl, refl);
  diagnostics_given = inr (refl, refl);
  initial_given = inr (refl, refl);
  second_given = inr (refl, refl);
  frame_given = inr (refl, refl);
  clients_given = inl refl;
  sockets_given = inr (refl, refl);
  queue_given = inr (refl, refl);
  idle_given = inr (refl, refl);
  messages_given = inr (refl, refl);
  window_given = inr (refl, refl);
}

from_env-Given_example : from_env Text read_addr roomy ≡ ok roomy_config
from_env-Given_example = from_env-Given Text read_addr roomy roomy_config roomy-Given (record {
  initial_fits = omega arith;
  second_fits = omega arith;
  frame_fits = omega arith;
  clients_fits = omega arith;
  sockets_fits = omega arith;
  queue_fits = omega arith;
  idle_fits = omega arith;
  messages_fits = omega arith;
  window_fits = omega arith;
})

-- The switch for diagnostics is not a boolean.
abbrev unclear : Env
unclear key = if key == str "RELAY_DIAGNOSTICS" then some (str "maybe") else none

from_env-Blames_example :
    Blames unclear (str "RELAY_DIAGNOSTICS must be a boolean (true/false, 1/0, yes/no, on/off)")
unfolding from_env parse_socket_addr addr_or var_or text_eq parse_bool bool_of to_ascii_lowercase
    trim
from_env-Blames_example =
    from_env-Blames Text read_addr unclear (str "127.0.0.1:8787")
      (str "RELAY_DIAGNOSTICS must be a boolean (true/false, 1/0, yes/no, on/off)") refl refl

-- A limit of 0 is read without an error.
zero_limit : parse_usize (λ key. some (str "0")) (str "RELAY_MAX_FRAME_BYTES") 1 ≡ ok 0
unfolding parse_usize var_or int_or parse_int parse_digits is_digit
zero_limit = refl
