-- ===== src/Ws/Handshake/Accept.antt =====
-- The key of the answer, as a client checks it.
use sdk_cp.Base.{ℕ, ◌≡◌, refl, some, List, [], ◌∷◌, ◌++◌, IsByte, All}
use sdk_cp.Ws.Base64.{codes}
use sdk_cp.Ws.Base64.RoundTrip.{decode, decode-base64_encode}
use sdk_cp.Ws.Handshake.{crlf, WsReq, generate_key, generate_websocket_response}

-- The GUID of RFC 6455, 258EAFA5-E914-47DA-95CA-C5AB0DC85B11, byte by byte.
abbrev pub rfc_guid : List ℕ
rfc_guid =
    50 ∷ 53 ∷ 56 ∷ 69 ∷ 65 ∷ 70 ∷ 65 ∷ 53 ∷ 45 ∷ 69 ∷ 57 ∷ 49 ∷ 52 ∷ 45 ∷ 52 ∷ 55 ∷ 68 ∷ 65 ∷ 45
    ∷ 57 ∷ 53 ∷ 67 ∷ 65 ∷ 45 ∷ 67 ∷ 53 ∷ 65 ∷ 66 ∷ 48 ∷ 68 ∷ 67 ∷ 56 ∷ 53 ∷ 66 ∷ 49 ∷ 49 ∷ []

-- "Sec-WebSocket-Accept: ", byte by byte.
abbrev pub accept_name : List ℕ
accept_name =
    83 ∷ 101 ∷ 99 ∷ 45 ∷ 87 ∷ 101 ∷ 98 ∷ 83 ∷ 111 ∷ 99 ∷ 107 ∷ 101 ∷ 116 ∷ 45 ∷ 65 ∷ 99 ∷ 99 ∷ 101
    ∷ 112 ∷ 116 ∷ 58 ∷ 32 ∷ []

-- A response whose last header is Sec-WebSocket-Accept, ended by a blank line, with a value that a
-- base64 decoder reads as the SHA1 of the key and the GUID.
abbrev pub Accepts : (List ℕ → List ℕ) → List ℕ → List ℕ → Type 0
Accepts sha1 key response =
    (head : List ℕ) × (value : List ℕ) × (response
      ≡ head ++ (13 ∷ 10 ∷ (accept_name ++ (value ++ (13 ∷ 10 ∷ 13 ∷ 10 ∷ [])))))
    × (decode value ≡ some (sha1 (key ++ rfc_guid)))

-- The response to a request, the one that is written to the client, has Sec-WebSocket-Accept as its
-- last header before the blank line, on a line of its own, and its value is base64 text of the SHA1
-- of the request's key and the GUID of RFC 6455: a base64 decoder gives that digest back, whatever
-- the encoder's array of three held before. SHA1 answers bytes.
pub generate_websocket_response-Accepts :
    (sha1 : List ℕ → List ℕ) (x y z : ℕ) (r : WsReq)
    → ((m : List ℕ) → All IsByte (sha1 m))
    → Accepts sha1 r.sec_websocket_key (generate_websocket_response sha1 (x ∷ y ∷ z ∷ []) (some r))
unfolding generate_key generate_websocket_response
generate_websocket_response-Accepts sha1 x y z r bytes = (
  codes "HTTP/1.1 101 WebSocket Protocol HandShake"
      ++ (crlf
          ++ (codes "Connection: Upgrade"
              ++ (crlf
                  ++ (codes "Upgrade: WebSocket"
                      ++ (crlf ++ codes "Server: WebChat Demo Server"))))),
  generate_key sha1 (x ∷ y ∷ z ∷ []) r.sec_websocket_key,
  refl,
  decode-base64_encode x y z (sha1 (r.sec_websocket_key ++ rfc_guid))
      (bytes (r.sec_websocket_key ++ rfc_guid)),
)
