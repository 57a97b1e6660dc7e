-- ===== src/Node/CommandLine.antt =====
-- crates/node-access-3role/src/legacy_cli.rs and relay_ws.rs: arguments, and the URL of the relay.
use node_access.Prelude.{
  arith, ◌≡◌, refl, Bool, true, false, not, ◌&&◌, ◌||◌, Option, none, some, List, [], ◌∷◌, ◌++◌,
  map, Text, str, eqb, text_Eq, ◌==◌, if◌then◌else◌,
}
use mathlib.Core.List.{reverse, reverse-append}

-- `legacy_flags.contains(name)`
unfoldable pub is_flag : Text → List Text → Bool
is_flag name [] = false
is_flag name (flag ∷ flags) = flag == name || is_flag name flags

-- `-` is 45.
unfoldable pub normalize_arg : List Text → Text → Text
unfolding is_flag
normalize_arg flags [] = []
normalize_arg flags (c ∷ []) = if eqb c 45 && is_flag [] flags then 45 ∷ 45 ∷ [] else c ∷ []
normalize_arg flags (c ∷ d ∷ name) =
    if eqb c 45 && (not (eqb d 45) && is_flag (d ∷ name) flags)
    then 45 ∷ 45 ∷ d ∷ name
    else c ∷ d ∷ name

unfoldable pub normalize_legacy_args : List Text → List Text → List Text
unfolding normalize_arg
normalize_legacy_args flags args = map (normalize_arg flags) args

normalize_arg-twice :
    (flags : List Text) (arg : Text)
    → normalize_arg flags (normalize_arg flags arg) ≡ normalize_arg flags arg
unfolding normalize_arg
normalize_arg-twice flags [] = refl
normalize_arg-twice flags (c ∷ []) = ground arith
normalize_arg-twice flags (c ∷ d ∷ name) = ground arith

-- Arguments that have been normalized stay as they are when they are normalized again.
pub normalize_legacy_args-twice :
    (flags args : List Text)
    → normalize_legacy_args flags (normalize_legacy_args flags args)
      ≡ normalize_legacy_args flags args
unfolding normalize_legacy_args
normalize_legacy_args-twice flags [] = refl
normalize_legacy_args-twice flags (arg ∷ args) =
    rw (normalize_arg-twice flags arg, normalize_legacy_args-twice flags args)

unfoldable pub strip_prefix : Text → Text → Option Text
strip_prefix [] s = some s
strip_prefix (c ∷ p) [] = none
strip_prefix (c ∷ p) (d ∷ s) = let rest = strip_prefix p s in if eqb c d then rest else none

unfoldable pub ends_with : Text → Text → Bool
unfolding strip_prefix
ends_with s p = elim (strip_prefix (reverse p) (reverse s)) [ none ↦ false | some rest ↦ true ]

-- `/` is 47.
unfoldable pub skip_slashes : Text → Text
skip_slashes [] = []
skip_slashes (c ∷ s) = let rest = skip_slashes s in if eqb c 47 then rest else c ∷ s

-- `trim_end_matches('/')`
unfoldable pub trim_slashes : Text → Text
unfolding skip_slashes
trim_slashes s = reverse (skip_slashes (reverse s))

with_scheme : Option Text → Option Text → Text → Text
with_scheme (some rest) secure base = str "ws://" ++ rest
with_scheme none (some rest) base = str "wss://" ++ rest
with_scheme none none base = base

-- The base of the URL.
unfoldable pub ws_base : Text → Text
unfolding trim_slashes with_scheme strip_prefix ends_with
ws_base relay_base =
    let trimmed = trim_slashes relay_base in
    let base =
      with_scheme (strip_prefix (str "http://") trimmed) (strip_prefix (str "https://") trimmed)
        trimmed in
    if ends_with base (str "/ws") then base else base ++ str "/ws"

unfoldable pub connection_query : (Text → Text) → Option Text → Text
connection_query encode none = []
connection_query encode (some id) = str "&connectionId=" ++ encode id

-- `encode` is `urlencoding::encode`.
unfoldable pub build_ws_url : (Text → Text) → Text → Text → Text → Option Text → Text
unfolding ws_base connection_query
build_ws_url encode relay_base server_id role connection_id =
    ws_base relay_base
    ++ (str "?serverId="
        ++ (encode server_id
            ++ (str "&role=" ++ (role ++ (str "&v=2" ++ connection_query encode connection_id)))))

-- The URLs that the nodes connect to.
unfoldable pub connect_control : (Text → Text) → Text → Text → Text
unfolding build_ws_url
connect_control encode relay_base server_id =
    build_ws_url encode relay_base server_id (str "server") none

unfoldable pub connect_server_data : (Text → Text) → Text → Text → Text → Text
unfolding build_ws_url
connect_server_data encode relay_base server_id connection_id =
    build_ws_url encode relay_base server_id (str "server") (some connection_id)

unfoldable pub connect_client_data : (Text → Text) → Text → Text → Option Text → Text
unfolding build_ws_url
connect_client_data encode relay_base server_id connection_id =
    build_ws_url encode relay_base server_id (str "client") connection_id

trim_slashes-slash : (s : Text) → trim_slashes (s ++ 47 ∷ []) ≡ trim_slashes s
unfolding trim_slashes skip_slashes
trim_slashes-slash s = rw (reverse-append s (47 ∷ [])) refl

-- A slash at the end of the relay's address makes no difference to the URL.
pub build_ws_url-slash :
    (encode : Text → Text) (relay_base server_id role : Text) (connection_id : Option Text)
    → build_ws_url encode (relay_base ++ 47 ∷ []) server_id role connection_id
      ≡ build_ws_url encode relay_base server_id role connection_id
unfolding build_ws_url ws_base
build_ws_url-slash encode relay_base server_id role connection_id =
    rw (trim_slashes-slash relay_base)
