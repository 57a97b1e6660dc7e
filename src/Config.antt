-- ===== src/Config.antt =====
-- crates/relay/src/config.rs: the configuration of the relay from its environment. The environment
-- is a function, which has no value where `env::var` is an error; a `usize` and a `u64` hold the
-- numbers below 2^64. How a socket address is read is the standard library's and a parameter.
pub mod Reading
pub mod Errors
mod Tests
use node_access.Prelude.{
  ◌+◌, ℕ, ◌*◌, ◌^◌, ◌≡◌, refl, Bool, true, false, ◌&&◌, ◌||◌, Option, none, some, List, [], ◌∷◌,
  ◌++◌, map, Text, str, text_Eq, text_eq, ◌==◌, if◌then◌else◌, leb, trim, to_string, parse_int,
  ParsedInt, number, not_int, IntError, empty_text, invalid_digit, overflow,
}
use node_access.Protocol.{Result, ok, err}
use node_access.Session.State.{
  RelayTimingConfig, RelayLimitsConfig, default_timings, default_limits,
}

infixl 5 ◌>>=◌
abbrev pub ◌>>=◌ : {A B : Type 0} → Result A → (A → Result B) → Result B
ok a >>= f = f a
err e >>= f = err e

abbrev pub Env : Type 0
Env = Text → Option Text

-- `env::var(key).unwrap_or_else(|_| default)`
unfoldable pub var_or : Env → Text → Text → Text
var_or env key default = elim (env key) [ none ↦ default | some raw ↦ raw ]

-- What `ParseIntError` prints.
unfoldable pub int_error : IntError → Text
int_error empty_text = str "cannot parse integer from empty string"
int_error invalid_digit = str "invalid digit found in string"
int_error overflow = str "number too large to fit in target type"

unfoldable pub int_or : Text → Text → ParsedInt → Result ℕ
unfolding int_error
int_or key wanted (number n) = ok n
int_or key wanted (not_int error) = err (key ++ (wanted ++ int_error error))

abbrev pub bound : ℕ
bound = 2 ^ 64

unfoldable pub parse_usize : Env → Text → ℕ → Result ℕ
unfolding int_or var_or to_string
parse_usize env key default =
    int_or key (str " must be a positive integer: ")
      (parse_int bound (var_or env key (to_string default)))

-- In milliseconds.
unfoldable pub duration_ms : Env → Text → ℕ → Result ℕ
unfolding int_or var_or to_string
duration_ms env key default =
    int_or key (str " must be milliseconds as u64: ")
      (parse_int bound (var_or env key (to_string default)))

-- `to_ascii_lowercase`
unfoldable pub to_ascii_lowercase : Text → Text
to_ascii_lowercase = map (λ c. if leb 65 c && leb c 90 then c + 32 else c)

unfoldable pub bool_of : Text → Text → Result Bool
bool_of key s =
    if s == str "1" || (s == str "true" || (s == str "yes" || s == str "on"))
    then ok true
    else if s == str "0" || (s == str "false" || (s == str "no" || s == str "off"))
    then ok false
    else err (key ++ str " must be a boolean (true/false, 1/0, yes/no, on/off)")

-- `bool::to_string`
unfoldable pub bool_text : Bool → Text
bool_text true = str "true"
bool_text false = str "false"

unfoldable pub parse_bool : Env → Text → Bool → Result Bool
unfolding var_or to_ascii_lowercase bool_of bool_text
parse_bool env key default =
    bool_of key (to_ascii_lowercase (trim (var_or env key (bool_text default))))

module _ (Addr : Type 0) (parse_addr : Text → Result Addr) where
  pub record RelayConfig : Type 0 where
    pub bind_addr : Addr
    pub log_filter : Text
    pub diagnostics : Bool
    pub timings : RelayTimingConfig
    pub limits : RelayLimitsConfig

  unfoldable pub addr_or : Text → Result Addr → Result Addr
  addr_or key (ok addr) = ok addr
  addr_or key (err error) = err (key ++ (str " must be a valid socket address: " ++ error))

  unfoldable pub parse_socket_addr : Env → Text → Text → Result Addr
  unfolding addr_or var_or
  parse_socket_addr env key default = addr_or key (parse_addr (var_or env key default))

  unfoldable pub timings_from_env : Env → Result RelayTimingConfig
  timings_from_env env = do
    initial ← duration_ms env (str "RELAY_INITIAL_NUDGE_MS") 10_000
    second ← duration_ms env (str "RELAY_SECOND_NUDGE_MS") 5_000
    ok (record { initial_nudge_delay = initial; second_nudge_delay = second })

  unfoldable pub limits_from_env : Env → Result RelayLimitsConfig
  limits_from_env env = do
    frame ← parse_usize env (str "RELAY_MAX_FRAME_BYTES") (64 * 1024)
    clients ← parse_usize env (str "RELAY_MAX_CLIENTS_PER_CONNECTION") 8
    sockets ← parse_usize env (str "RELAY_MAX_SOCKETS_PER_SESSION") 64
    queue ← parse_usize env (str "RELAY_MAX_OUTBOUND_QUEUE_MESSAGES") 256
    idle ← duration_ms env (str "RELAY_IDLE_TIMEOUT_MS") 120_000
    messages ← parse_usize env (str "RELAY_MAX_MESSAGES_PER_WINDOW") 240
    window ← duration_ms env (str "RELAY_RATE_LIMIT_WINDOW_MS") 10_000
    ok (record {
      max_frame_bytes = frame;
      max_clients_per_connection = clients;
      max_sockets_per_session = sockets;
      max_outbound_queue_messages = queue;
      idle_timeout = idle;
      max_messages_per_window = messages;
      rate_limit_window = window;
    })

  unfoldable pub from_env : Env → Result RelayConfig
  unfolding timings_from_env limits_from_env
  from_env env = do
    bind_addr ← parse_socket_addr env (str "RELAY_BIND") (str "127.0.0.1:8787")
    let log_filter = var_or env (str "RELAY_LOG") (str "info")
    diagnostics ← parse_bool env (str "RELAY_DIAGNOSTICS") false
    timings ← timings_from_env env
    limits ← limits_from_env env
    ok (record {
      bind_addr = bind_addr;
      log_filter = log_filter;
      diagnostics = diagnostics;
      timings = timings;
      limits = limits;
    })
