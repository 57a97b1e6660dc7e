-- ===== src/Socks/Tests.antt =====
-- Witnesses of the theorems on the SOCKS5 handshake.
use node_access.Prelude.{◌≡◌, refl, some, [], ◌∷◌, str, text_Eq, ◌==◌, if◌then◌else◌}
use node_access.Socks.{Host, serve_socks5, done, failed, connect_failed, target_of, reply}
use node_access.Socks.Requests.{domain, request_bytes, ready, serve_socks5-request}
use node_access.Mux.Frame.{Bytes}
use node_access.Socks.Shapes.{Served}
use node_access.Socks.Addresses.{Ends}
use node_access.Socks.Answers.{serve_socks5-Ends}

-- Bytes are taken for the characters of a text, and one target can be reached.
abbrev host : Host
host = record {
  from_utf8 = λ bytes. some bytes;
  ipv6_text = λ bytes. bytes;
  connects = λ target. target == str "example.org:443";
}

serve_socks5-request_example :
    let target = target_of host (str "example.org") (1 ∷ 187 ∷ []) in
    serve_socks5 host
      (ready (request_bytes (0 ∷ []) 0 (domain (str "example.org")) 1 187 (str "hello")) 0)
    ≡ (
      (if host.connects target then done target else failed (connect_failed target)),
      record {
        incoming = str "hello";
        written = 5 ∷ 0 ∷ reply (if host.connects target then 0 else 5);
        writes_left = 0;
      },
    )
serve_socks5-request_example =
    serve_socks5-request host (0 ∷ []) 0 (domain (str "example.org")) (str "example.org") 1 187
      (str "hello") 0 refl

-- A domain of two bytes that ends too early.
abbrev cut_off : Bytes
cut_off = 5 ∷ 1 ∷ 0 ∷ 5 ∷ 1 ∷ 0 ∷ 3 ∷ 2 ∷ 97 ∷ []

serve_socks5-Ends_example :
    Ends host cut_off
      (Served host cut_off)
      (serve_socks5 host (record { incoming = cut_off; written = []; writes_left = 2 }))
serve_socks5-Ends_example = serve_socks5-Ends host cut_off 0
