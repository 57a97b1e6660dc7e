-- ===== src/Config/Reading.antt =====
-- What crates/relay/src/config.rs makes of an environment: values that are set, defaults, errors.
use node_access.Prelude.{
  ℕ, ◌*◌, ◌<◌, ◌≡◌, refl, ◌⊎◌, inl, inr, Bool, true, false, none, some, Text, str, text_eq, text_Eq,
  trim, to_string, parse_int-to_string,
}
use node_access.Protocol.{Result, ok}
use node_access.Session.State.{RelayTimingConfig, RelayLimitsConfig}
use node_access.Config.{
  Env, var_or, int_or, bool_of, bool_text, to_ascii_lowercase, bound, parse_usize, duration_ms,
  parse_bool, RelayConfig, addr_or, parse_socket_addr, timings_from_env, limits_from_env, from_env,
}

-- The variable is set to the text of the value, or it is not set and the value is the default.
abbrev pub Gives {ℓ} : {A : Type ℓ} → Env → Text → (A → Text) → A → A → Type ℓ
Gives env key show default value =
    (env key ≡ some (show value)) ⊎ ((env key ≡ none) × (value ≡ default))

pub Gives-var_or {ℓ} :
    {A : Type ℓ} (env : Env) (key : Text) (show : A → Text) (default value : A)
    → Gives env key show default value
    → var_or env key (show default) ≡ show value
unfolding var_or
Gives-var_or env key show default value (inl e) = rw (var_or, e) refl
Gives-var_or env key show default value (inr (e, d)) = rw (var_or, e, d) refl

parse_usize-Gives :
    (env : Env) (key : Text) (default value : ℕ)
    → value < bound
    → Gives env key to_string default value
    → parse_usize env key default ≡ ok value
unfolding parse_usize
parse_usize-Gives env key default value h g =
    rw (Gives-var_or env key to_string default value g, parse_int-to_string bound value h, int_or)
      refl

duration_ms-Gives :
    (env : Env) (key : Text) (default value : ℕ)
    → value < bound
    → Gives env key to_string default value
    → duration_ms env key default ≡ ok value
unfolding duration_ms
duration_ms-Gives env key default value h g =
    rw (Gives-var_or env key to_string default value g, parse_int-to_string bound value h, int_or)
      refl

bool_of-bool_text :
    (key : Text) (b : Bool) → bool_of key (to_ascii_lowercase (trim (bool_text b))) ≡ ok b
unfolding bool_of to_ascii_lowercase trim bool_text text_eq
bool_of-bool_text key true = refl
bool_of-bool_text key false = refl

pub parse_bool-Gives :
    (env : Env) (key : Text) (default value : Bool)
    → Gives env key bool_text default value
    → parse_bool env key default ≡ ok value
unfolding parse_bool
parse_bool-Gives env key default value g =
    rw (Gives-var_or env key bool_text default value g) (bool_of-bool_text key value)

-- Every variable gives the part of the configuration that it is for.
pub record Given (Addr : Type 0) (parse_addr : Text → Result Addr) (env : Env)
    (c : RelayConfig Addr parse_addr) : Type 0 where
  pub bind_given :
      parse_addr (var_or env (str "RELAY_BIND") (str "127.0.0.1:8787")) ≡ ok c.bind_addr
  pub log_given : Gives env (str "RELAY_LOG") (λ t. t) (str "info") c.log_filter
  pub diagnostics_given : Gives env (str "RELAY_DIAGNOSTICS") bool_text false c.diagnostics
  pub initial_given :
      Gives env (str "RELAY_INITIAL_NUDGE_MS") to_string 10_000 c.timings.initial_nudge_delay
  pub second_given :
      Gives env (str "RELAY_SECOND_NUDGE_MS") to_string 5_000 c.timings.second_nudge_delay
  pub frame_given :
      Gives env (str "RELAY_MAX_FRAME_BYTES") to_string (64 * 1024) c.limits.max_frame_bytes
  pub clients_given :
      Gives env
        (str "RELAY_MAX_CLIENTS_PER_CONNECTION")
        to_string
        8
        c.limits.max_clients_per_connection
  pub sockets_given :
      Gives env (str "RELAY_MAX_SOCKETS_PER_SESSION") to_string 64 c.limits.max_sockets_per_session
  pub queue_given :
      Gives env
        (str "RELAY_MAX_OUTBOUND_QUEUE_MESSAGES")
        to_string
        256
        c.limits.max_outbound_queue_messages
  pub idle_given : Gives env (str "RELAY_IDLE_TIMEOUT_MS") to_string 120_000 c.limits.idle_timeout
  pub messages_given :
      Gives env (str "RELAY_MAX_MESSAGES_PER_WINDOW") to_string 240 c.limits.max_messages_per_window
  pub window_given :
      Gives env (str "RELAY_RATE_LIMIT_WINDOW_MS") to_string 10_000 c.limits.rate_limit_window

-- The numbers of the configuration are ones of 64 bits.
pub record Fits64 (t : RelayTimingConfig) (l : RelayLimitsConfig) : Type 0 where
  pub initial_fits : t.initial_nudge_delay < bound
  pub second_fits : t.second_nudge_delay < bound
  pub frame_fits : l.max_frame_bytes < bound
  pub clients_fits : l.max_clients_per_connection < bound
  pub sockets_fits : l.max_sockets_per_session < bound
  pub queue_fits : l.max_outbound_queue_messages < bound
  pub idle_fits : l.idle_timeout < bound
  pub messages_fits : l.max_messages_per_window < bound
  pub window_fits : l.rate_limit_window < bound

module _ (Addr : Type 0) (parse_addr : Text → Result Addr) (env : Env) where
  timings_from_env-Given :
      (c : RelayConfig Addr parse_addr)
      → Given Addr parse_addr env c
      → Fits64 c.timings c.limits
      → timings_from_env Addr parse_addr env ≡ ok c.timings
  unfolding timings_from_env
  timings_from_env-Given c g f =
      rw
        (
          duration_ms-Gives env (str "RELAY_INITIAL_NUDGE_MS") 10_000 c.timings.initial_nudge_delay
              f.initial_fits g.initial_given,
          duration_ms-Gives env (str "RELAY_SECOND_NUDGE_MS") 5_000 c.timings.second_nudge_delay
              f.second_fits g.second_given,
        )
        refl

  limits_from_env-Given :
      (c : RelayConfig Addr parse_addr)
      → Given Addr parse_addr env c
      → Fits64 c.timings c.limits
      → limits_from_env Addr parse_addr env ≡ ok c.limits
  unfolding limits_from_env
  limits_from_env-Given c g f =
      let l = c.limits in
      rw
        (
          parse_usize-Gives env (str "RELAY_MAX_FRAME_BYTES") (64 * 1024) l.max_frame_bytes
              f.frame_fits g.frame_given,
          parse_usize-Gives env (str "RELAY_MAX_CLIENTS_PER_CONNECTION") 8
              l.max_clients_per_connection f.clients_fits g.clients_given,
          parse_usize-Gives env (str "RELAY_MAX_SOCKETS_PER_SESSION") 64 l.max_sockets_per_session
              f.sockets_fits g.sockets_given,
          parse_usize-Gives env (str "RELAY_MAX_OUTBOUND_QUEUE_MESSAGES") 256
              l.max_outbound_queue_messages f.queue_fits g.queue_given,
          duration_ms-Gives env (str "RELAY_IDLE_TIMEOUT_MS") 120_000 l.idle_timeout f.idle_fits
              g.idle_given,
          parse_usize-Gives env (str "RELAY_MAX_MESSAGES_PER_WINDOW") 240 l.max_messages_per_window
              f.messages_fits g.messages_given,
          duration_ms-Gives env (str "RELAY_RATE_LIMIT_WINDOW_MS") 10_000 l.rate_limit_window
              f.window_fits g.window_given,
        )
        refl

  -- An environment in which each variable is set to the text of a part of a configuration, or is
  -- not set while that part is the default, is read as that configuration, where its numbers have
  -- 64 bits and its address is what the address text is read as.
  pub from_env-Given :
      (c : RelayConfig Addr parse_addr)
      → Given Addr parse_addr env c
      → Fits64 c.timings c.limits
      → from_env Addr parse_addr env ≡ ok c
  unfolding from_env parse_socket_addr addr_or
  from_env-Given c g f =
      rw
        (
          g.bind_given,
          parse_bool-Gives env (str "RELAY_DIAGNOSTICS") false c.diagnostics g.diagnostics_given,
          timings_from_env-Given c g f,
          limits_from_env-Given c g f,
          Gives-var_or env (str "RELAY_LOG") (λ t. t) (str "info") c.log_filter g.log_given,
        )
        refl
