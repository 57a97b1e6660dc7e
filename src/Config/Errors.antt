-- ===== src/Config/Errors.antt =====
-- The errors of crates/relay/src/config.rs.
use node_access.Prelude.{
  ℕ, ◌*◌, ◌<◌, ◌≡◌, refl, Bool, false, Bool-cases, inl, inr, some, Option-cases, ◌++◌, ◌||◌, Text,
  str, text_Eq, ◌==◌, to_string, parse_int, ParsedInt, number, not_int, parse_int-to_string, arith,
}
use node_access.Protocol.{Result, ok, err}
use node_access.Config.Reading.{parse_bool-Gives}
use node_access.Config.{
  Env, var_or, int_or, bool_of, bound, parse_usize, duration_ms, parse_bool, addr_or,
  parse_socket_addr, timings_from_env, limits_from_env, from_env, ◌>>=◌,
}

-- The error begins with the name of a variable that is set.
abbrev pub Blames : Env → Text → Type 0
Blames env error = (key raw rest : Text) × (env key ≡ some raw) × (error ≡ key ++ rest)

-- Every error of the result does.
data Blaming (env : Env) {A : Type 0} : Result A → Type 0 where
  fine : {a : A} → Blaming env (ok a)
  blames : {error : Text} → Blames env error → Blaming env (err error)

Blaming-bind :
    {A B : Type 0} {env : Env} {m : Result A} {f : A → Result B}
    → Blaming env m
    → ((a : A) → Blaming env (f a))
    → Blaming env (m >>= f)
Blaming-bind {m = ok a} b next = next a
Blaming-bind {m = err error} (blames b) next = blames b

Blaming-err :
    {A : Type 0} {env : Env} {m : Result A} (error : Text)
    → Blaming env m
    → m ≡ err error
    → Blames env error
Blaming-err {m = ok a} error b e = absurd (cc e)
Blaming-err {env = env} {m = err x} error (blames b) e = let q : x ≡ error = cc e in rw q at b

module _ (env : Env) (key : Text) where
  int_or-Blaming :
      (wanted raw : Text) (p : ParsedInt) → env key ≡ some raw → Blaming env (int_or key wanted p)
  unfolding int_or
  int_or-Blaming wanted raw (number n) e = fine
  int_or-Blaming wanted raw (not_int i) e = blames (key, raw, _, e, refl)

  Blaming-int :
      (wanted : Text) (default : ℕ)
      → default < bound
      → Blaming env (int_or key wanted (parse_int bound (var_or env key (to_string default))))
  unfolding var_or
  Blaming-int wanted default h = elim (Option-cases (env key)) [
    | inl e ↦ rw (var_or, e, parse_int-to_string bound default h) (unfold int_or in fine)
    | inr (raw, e) ↦ rw (var_or, e) (int_or-Blaming wanted raw (parse_int bound raw) e)
  ]

  Blaming-usize : (default : ℕ) → default < bound → Blaming env (parse_usize env key default)
  Blaming-usize default h =
      unfold parse_usize in Blaming-int (str " must be a positive integer: ") default h

  Blaming-duration : (default : ℕ) → default < bound → Blaming env (duration_ms env key default)
  Blaming-duration default h =
      unfold duration_ms in Blaming-int (str " must be milliseconds as u64: ") default h

  bool_of-Blaming : (raw s : Text) → env key ≡ some raw → Blaming env (bool_of key s)
  unfolding bool_of
  bool_of-Blaming raw s e =
      elim (Bool-cases (s == str "1" || (s == str "true" || (s == str "yes" || s == str "on")))) [
        | inl y ↦ rw y fine
        | inr y ↦
            elim (Bool-cases
              (s == str "0" || (s == str "false" || (s == str "no" || s == str "off")))) [
                | inl z ↦ rw (y, z) fine
                | inr z ↦ rw (y, z) (blames (key, raw, _, e, refl))
              ]
      ]

  Blaming-bool : (default : Bool) → Blaming env (parse_bool env key default)
  Blaming-bool default = elim (Option-cases (env key)) [
    | inl e ↦ rw (parse_bool-Gives env key default default (inr (e, refl))) fine
    | inr (raw, e) ↦ unfold parse_bool in bool_of-Blaming raw _ e
  ]

  Blaming-addr :
      (Addr : Type 0) (parse_addr : Text → Result Addr) (default : Text) (a : Addr)
      → parse_addr default ≡ ok a
      → Blaming env (parse_socket_addr Addr parse_addr env key default)
  unfolding parse_socket_addr var_or
  Blaming-addr Addr parse_addr default a d = elim (Option-cases (env key)) [
    | inl e ↦ rw (parse_socket_addr, var_or, e, d, addr_or) (unfold addr_or in fine)
    | inr (raw, e) ↦ rw (parse_socket_addr, var_or, e) (read (parse_addr raw) raw e)
  ]
    where
      read :
          (r : Result Addr) (raw : Text)
          → env key ≡ some raw
          → Blaming env (addr_or Addr parse_addr key r)
      read (ok b) raw e = unfold addr_or in fine
      read (err x) raw e = unfold addr_or in blames (key, raw, _, e, refl)

module _ (Addr : Type 0) (parse_addr : Text → Result Addr) (env : Env) where
  timings-Blaming : Blaming env (timings_from_env Addr parse_addr env)
  unfolding timings_from_env
  timings-Blaming =
      Blaming-bind (Blaming-duration env (str "RELAY_INITIAL_NUDGE_MS") 10_000 (omega arith))
        λ initial.
          Blaming-bind (Blaming-duration env (str "RELAY_SECOND_NUDGE_MS") 5_000 (omega arith))
            λ second. fine

  limits-Blaming : Blaming env (limits_from_env Addr parse_addr env)
  unfolding limits_from_env
  limits-Blaming =
      Blaming-bind (Blaming-usize env (str "RELAY_MAX_FRAME_BYTES") (64 * 1024) (omega arith))
        λ frame.
          Blaming-bind (Blaming-usize env (str "RELAY_MAX_CLIENTS_PER_CONNECTION") 8 (omega arith))
            λ clients.
              Blaming-bind
                (Blaming-usize env (str "RELAY_MAX_SOCKETS_PER_SESSION") 64 (omega arith))
                λ sockets.
                  Blaming-bind
                    (Blaming-usize env (str "RELAY_MAX_OUTBOUND_QUEUE_MESSAGES") 256 (omega arith))
                    λ queue.
                      Blaming-bind
                        (Blaming-duration env (str "RELAY_IDLE_TIMEOUT_MS") 120_000 (omega arith))
                        λ idle.
                          Blaming-bind
                            (Blaming-usize env (str "RELAY_MAX_MESSAGES_PER_WINDOW") 240
                              (omega arith))
                            λ messages.
                              Blaming-bind
                                (Blaming-duration env (str "RELAY_RATE_LIMIT_WINDOW_MS") 10_000
                                  (omega arith))
                                λ window. fine

  from_env-Blaming :
      (a : Addr)
      → parse_addr (str "127.0.0.1:8787") ≡ ok a
      → Blaming env (from_env Addr parse_addr env)
  unfolding from_env
  from_env-Blaming a d =
      Blaming-bind (Blaming-addr env (str "RELAY_BIND") Addr parse_addr (str "127.0.0.1:8787") a d)
        λ bind_addr. Blaming-bind (Blaming-bool env (str "RELAY_DIAGNOSTICS") false) λ diagnostics.
          Blaming-bind timings-Blaming λ timings. Blaming-bind limits-Blaming λ limits. fine

  -- Where the default address can be read, an error of the configuration begins with the name of a
  -- variable that is set: no variable that is missing is an error.
  pub from_env-Blames :
      (a : Addr) (error : Text)
      → parse_addr (str "127.0.0.1:8787") ≡ ok a
      → from_env Addr parse_addr env ≡ err error
      → Blames env error
  from_env-Blames a error d e = Blaming-err error (from_env-Blaming a d) e
