-- ===== src/Mux/Samples.antt =====
-- Instances of the interfaces of the multiplexer, which show that their laws can be met: requests
-- and messages as bytes behind a tag.
use node_access.Prelude.{
  sym, ℕ, zero, suc, ◌≡◌, refl, true, false, Option, none, some, [], ◌∷◌, ◌++◌, Text, length, take,
  drop,
}
use node_access.Runtime.Samples.{take-length-append, drop-length-append}
use node_access.Mux.Frame.{
  Bytes, OpenRequest, socks, visit, provider_connect, ControlMessage, bind, bind_ack, info, Serde,
}
use node_access.Mux.Crypto.{Aead}

-- A name and what may follow it.
unfoldable pub named : Text → Option Text → Bytes
named name none = 0 ∷ name
named name (some auth) = 1 ∷ length name ∷ (name ++ auth)

unfoldable pub read_named : Bytes → Option (Text × Option Text)
read_named (zero ∷ name) = some (name, none)
read_named (suc zero ∷ k ∷ bytes) = some (take k bytes, some (drop k bytes))
read_named _ = none

read_named-named :
    (name : Text) (auth : Option Text) → read_named (named name auth) ≡ some (name, auth)
unfolding read_named named
read_named-named name none = refl
read_named-named name (some auth) = rw (take-length-append name auth, drop-length-append name auth)

unfoldable pub write_request : OpenRequest → Option Bytes
unfolding named
write_request socks = some (0 ∷ [])
write_request (visit name auth) = some (1 ∷ named name auth)
write_request (provider_connect name) = some (2 ∷ name)

visit_of : Option (Text × Option Text) → Option OpenRequest
visit_of none = none
visit_of (some (name, auth)) = some (visit name auth)

unfoldable pub read_request : Bytes → Option OpenRequest
unfolding read_named visit_of
read_request (zero ∷ []) = some socks
read_request (suc zero ∷ bytes) = visit_of (read_named bytes)
read_request (suc (suc zero) ∷ name) = some (provider_connect name)
read_request _ = none

pub read_request-write_request :
    (r : OpenRequest) (b : Bytes) → write_request r ≡ some b → read_request b ≡ some r
unfolding write_request read_request
read_request-write_request socks b e = let q : 0 ∷ [] ≡ b = cc e in rw (← q)
read_request-write_request (visit name auth) b e =
    let q : 1 ∷ named name auth ≡ b = cc e in rw (← q, read_named-named name auth, visit_of)
read_request-write_request (provider_connect name) b e = let q : 2 ∷ name ≡ b = cc e in rw (← q)

abbrev pub sample_requests : Serde OpenRequest
sample_requests = record {
  to_vec = write_request;
  from_slice = read_request;
  from_slice-to_vec = read_request-write_request;
}

unfoldable pub write_message : ControlMessage → Option Bytes
unfolding named
write_message (bind name auth) = some (0 ∷ named name auth)
write_message (bind_ack name true error) = some (1 ∷ named name error)
write_message (bind_ack name false error) = some (2 ∷ named name error)
write_message (info message) = some (3 ∷ message)

message_of : ℕ → Option (Text × Option Text) → Option ControlMessage
message_of tag none = none
message_of zero (some (name, auth)) = some (bind name auth)
message_of (suc zero) (some (name, error)) = some (bind_ack name true error)
message_of (suc (suc tag)) (some (name, error)) = some (bind_ack name false error)

unfoldable pub read_message : Bytes → Option ControlMessage
unfolding read_named message_of
read_message (zero ∷ bytes) = message_of 0 (read_named bytes)
read_message (suc zero ∷ bytes) = message_of 1 (read_named bytes)
read_message (suc (suc zero) ∷ bytes) = message_of 2 (read_named bytes)
read_message (suc (suc (suc zero)) ∷ message) = some (info message)
read_message _ = none

pub read_message-write_message :
    (m : ControlMessage) (b : Bytes) → write_message m ≡ some b → read_message b ≡ some m
unfolding write_message read_message
read_message-write_message (bind name auth) b e =
    let q : 0 ∷ named name auth ≡ b = cc e in rw (← q, read_named-named name auth, message_of)
read_message-write_message (bind_ack name true error) b e =
    let q : 1 ∷ named name error ≡ b = cc e in rw (← q, read_named-named name error, message_of)
read_message-write_message (bind_ack name false error) b e =
    let q : 2 ∷ named name error ≡ b = cc e in rw (← q, read_named-named name error, message_of)
read_message-write_message (info message) b e = let q : 3 ∷ message ≡ b = cc e in rw (← q)

abbrev pub sample_messages : Serde ControlMessage
sample_messages = record {
  to_vec = write_message;
  from_slice = read_message;
  from_slice-to_vec = read_message-write_message;
}

-- A cipher that leaves the bytes as they are.
abbrev pub sample_aead : Aead
sample_aead = record {
  Key = Text;
  digest = λ secret. secret;
  encrypt = λ key nonce plaintext. some plaintext;
  decrypt = λ key nonce ciphertext. some ciphertext;
  decrypt-encrypt = λ key nonce plaintext ciphertext e. sym e;
}
