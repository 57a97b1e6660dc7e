-- ===== src/TestClient/Receiving.antt =====
-- What crates/relay/src/bin/relay-test-client.rs prints of what it receives.
use node_access.Prelude.{arith}
use node_access.Prelude.{ℕ, suc, ◌+◌, ◌≡◌, refl, ap, List, [], ◌∷◌, ◌++◌, map, All, length, Text}
use node_access.Mux.Frame.{Bytes}
use node_access.TestClient.{
  TestMessage, text, binary, close, other, failed, timed_out, Printed, receive_loop,
}

-- What does not end the loop.
abbrev pub IsMessage : TestMessage → Type 0
IsMessage (text t) = Unit
IsMessage (binary bytes) = Unit
IsMessage (other message) = Unit
IsMessage _ = ⊥

module _ (debug : Bytes → Text) where
  abbrev pub shown : TestMessage → Text
  shown (text t) = t
  shown (binary bytes) = debug bytes
  shown (other message) = message
  shown _ = []

  abbrev pub behind : List Text → Printed → Printed
  behind lines r = (lines ++ r.0, r.1)

  more :
      (messages : List TestMessage) (n : ℕ) → suc (length messages) + n ≡ suc (length messages + n)
  more messages n = omega arith

  -- Of messages that it waits for, each is printed in order, and the loop goes on with what comes
  -- behind them and what is left of its count.
  pub receive_loop-append :
      (messages rest : List TestMessage) (n : ℕ)
      → All IsMessage messages
      → receive_loop debug (length messages + n) (messages ++ rest)
        ≡ behind (map shown messages) (receive_loop debug n rest)
  unfolding receive_loop
  receive_loop-append [] rest n h = let e : 0 + n ≡ n = omega arith in rw e refl
  receive_loop-append (text t ∷ messages) rest n (h, hs) =
      rw (more messages n)
        (ap (λ (r : Printed). behind (t ∷ []) r) (receive_loop-append messages rest n hs))
  receive_loop-append (binary bytes ∷ messages) rest n (h, hs) =
      rw (more messages n)
        (ap (λ (r : Printed). behind (debug bytes ∷ []) r) (receive_loop-append messages rest n hs))
  receive_loop-append (other message ∷ messages) rest n (h, hs) =
      rw (more messages n)
        (ap (λ (r : Printed). behind (message ∷ []) r) (receive_loop-append messages rest n hs))
  receive_loop-append (close frame ∷ messages) rest n (h, hs) = elim h [ ]
  receive_loop-append (failed ∷ messages) rest n (h, hs) = elim h [ ]
  receive_loop-append (timed_out ∷ messages) rest n (h, hs) = elim h [ ]
