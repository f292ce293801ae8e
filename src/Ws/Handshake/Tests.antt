-- ===== src/Ws/Handshake/Tests.antt =====
-- The theorems on the handshake at concrete requests.
use sdk_cp.Base.{true≢false, sym, ◌∙◌, ℕ, ◌≡◌, refl, arith, false, some, List, [], ◌∷◌, ◌++◌}
use sdk_cp.Ws.Base64.{codes}
use sdk_cp.Ws.Websocket.{done}
use sdk_cp.Ws.Handshake.{
  WsReq, crlf, parse_websocket_request, print_websocket_request, generate_websocket_response,
}
use sdk_cp.Ws.Handshake.RoundTrip.{
  empty_req, IsPrintable, parse_websocket_request-print_websocket_request,
}
use sdk_cp.Ws.Handshake.Totality.{parse_websocket_request_defined}
use sdk_cp.Ws.Handshake.Accept.{Accepts, generate_websocket_response-Accepts}
use sdk_cp.Ws.Connection.{disable_read, write_out}
use sdk_cp.Ws.Connection.Opening.{ends_request, request_turns}
use sdk_cp.Ws.Connection.Requests.{
  HasBlankLine, HasBlankLine-ends_request, reading, answered, receives_request,
}
use sdk_cp.Ws.Tests.{queue_platform, conn}

abbrev request : WsReq
request = record empty_req { req = codes "GET"; host = codes "ab"; sec_websocket_key = codes "k=" }

request-IsPrintable : IsPrintable request
request-IsPrintable = (
  omega arith,
  (
    (ok_byte, (ok_byte, (ok_byte, tt))),
    (
      (tt, refl),
      (
        (tt, refl),
        (
          ((ok_byte, (ok_byte, tt)), refl),
          ((tt, refl), ((tt, refl), (((ok_byte, (ok_byte, tt)), refl), (tt, refl)))),
        ),
      ),
    ),
  ),
)
  where
    ok_byte : (false ≡ false) × (false ≡ false)
    ok_byte = (refl, refl)

parse_websocket_request-print_websocket_request_example :
    parse_websocket_request (some (print_websocket_request (some request))) (some empty_req)
    ≡ some (done, some (record request { host = codes "b" }))
parse_websocket_request-print_websocket_request_example =
    parse_websocket_request-print_websocket_request request request-IsPrintable

parse_websocket_request_defined_example :
    (r' : WsReq) × (parse_websocket_request (some (codes "Host:" ++ (10 ∷ []))) (some empty_req)
      ≡ some (done, some r'))
parse_websocket_request_defined_example =
    parse_websocket_request_defined (codes "Host:") 10 empty_req refl
      (refl, (refl, (refl, (refl, (refl, (refl, tt))))))

generate_websocket_response-Accepts_example :
    Accepts
      (λ m. 7 ∷ [])
      (codes "key")
      (generate_websocket_response
        (λ m. 7 ∷ [])
        (0 ∷ 0 ∷ 0 ∷ [])
        (some (record empty_req { sec_websocket_key = codes "key" })))
generate_websocket_response-Accepts_example =
    generate_websocket_response-Accepts (λ m. 7 ∷ []) 0 0 0
      (record empty_req { sec_websocket_key = codes "key" }) (λ m. (omega arith, tt))

abbrev short_request : List ℕ
short_request = b'G' ∷ (crlf ++ crlf)

short_request_parsed :
    parse_websocket_request (some short_request) (some empty_req)
    ≡ some (done, some (record empty_req { req = b'G' ∷ [] }))
unfolding parse_websocket_request
short_request_parsed = refl

no_end : (s : List ℕ) → ends_request s ≡ false → ¬ HasBlankLine s
no_end s e line = true≢false (sym (HasBlankLine-ends_request s line) ∙ e)

receives_request_example :
    (b' : List ℕ) × (request_turns
        (λ m. 7 ∷ [])
        (0 ∷ 0 ∷ 0 ∷ [])
        queue_platform
        5
        (reading conn [])
        (short_request ++ (1 ∷ []))
      ≡ some (
        answered
            (λ m. 7 ∷ [])
            (0 ∷ 0 ∷ 0 ∷ [])
            conn
            short_request
            (record empty_req { req = b'G' ∷ [] }),
        b',
        disable_read
            ∷ write_out (
                generate_websocket_response
                  (λ m. 7 ∷ [])
                  (0 ∷ 0 ∷ 0 ∷ [])
                  (some (record empty_req { req = b'G' ∷ [] })))
            ∷ [],
      ))
    × (b' ≡ 1 ∷ [])
receives_request_example =
    receives_request (λ m. 7 ∷ []) (0 ∷ 0 ∷ 0 ∷ []) queue_platform conn [] short_request (1 ∷ [])
      (short_request ++ (1 ∷ [])) done (record empty_req { req = b'G' ∷ [] })
      (
        no_end (b'G' ∷ []) refl,
        (
          no_end (b'G' ∷ 13 ∷ []) refl,
          (
            no_end (b'G' ∷ 13 ∷ 10 ∷ []) refl,
            (no_end (b'G' ∷ 13 ∷ 10 ∷ 13 ∷ []) refl, (b'G' ∷ [], refl)),
          ),
        ),
      )
      refl short_request_parsed
