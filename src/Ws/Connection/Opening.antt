-- ===== src/Ws/Connection/Opening.antt =====
-- connection.cpp: the handlers of the handshake, from `ws_serve_start` to `response_write_cb`.
use sdk_cp.Base.{
  ℕ, suc, zero, ◌-◌, Bool, true, false, ◌&&◌, if◌then◌else◌, leb, ◌==◌, Option, none, some, List,
  [], ◌∷◌, ◌++◌, length, drop, ◌>>=◌,
}
use sdk_cp.Ws.Handshake.{crlf, parse_websocket_request, generate_websocket_response}
use sdk_cp.Ws.Handshake.RoundTrip.{empty_req}
use sdk_cp.Ws.Connection.{
  Platform, Conn, Action, set_cb, request_read, watermark_read, watermark_write, enable_read,
  disable_read, write_out, fire, ws_serve_exit,
}
use sdk_cp.Ws.Connection.Receive.{Outcome, read_into, frame_recv_loop}

-- `accept_websocket_request(conn)`.
unfoldable pub accept_websocket_request : Option Conn → List Action
unfolding ws_serve_exit
accept_websocket_request none = []
accept_websocket_request (some c) =
    if c.bev
    then set_cb request_read ∷ watermark_read 1 ∷ watermark_write ∷ enable_read ∷ []
    else ws_serve_exit (some c)

-- `ws_serve_start(conn)`.
unfoldable pub ws_serve_start : Option Conn → List Action
unfolding ws_serve_exit accept_websocket_request
ws_serve_start none = []
ws_serve_start (some c) =
    if c.bev then accept_websocket_request (some c) else ws_serve_exit (some c)

abbrev pub same_bytes : List ℕ → List ℕ → Bool
same_bytes [] [] = true
same_bytes [] (d ∷ ds) = false
same_bytes (c ∷ cs) [] = false
same_bytes (c ∷ cs) (d ∷ ds) = c == d && same_bytes cs ds

-- `n >= 4 && ws_req_str.substr(n - 4) == "\r\n\r\n"`.
abbrev pub ends_request : List ℕ → Bool
ends_request s = leb 4 (length s) && same_bytes (drop (length s - 4) s) (crlf ++ crlf)

module _ (sha1 : List ℕ → List ℕ) (scratch : List ℕ) where
  -- `respond_websocket_request(conn)`, on a connection that is there.
  unfoldable pub respond_websocket_request : Conn → Outcome
  unfolding ws_serve_exit
  respond_websocket_request c =
      if c.bev
      then (parse_websocket_request (some c.ws_req_str) (some empty_req) >>= λ (status, r).
          let resp = generate_websocket_response sha1 scratch r in
          let c' = record c { ws_resp_str = resp } in
          elim resp [
            | [] ↦ some (c', ws_serve_exit (some c'))
            | x ∷ xs ↦ some (c', write_out (x ∷ xs) ∷ [])
          ])
      else some (c, ws_serve_exit (some c))

  -- What `request_read_cb` does with the byte that it read.
  unfoldable pub take_byte : Conn → List ℕ → Outcome
  take_byte c byte =
      let c' = record c { ws_req_str = c.ws_req_str ++ byte } in
      if ends_request (c.ws_req_str ++ byte)
      then (respond_websocket_request c' >>= λ (c'', out). some (c'', disable_read ∷ out))
      else some (c', [])

  -- `request_read_cb(bev, ctx)`, on a connection that is there.
  unfoldable pub request_read_cb :
      (p : Platform) → Conn → p.Bev → Option (Conn × p.Bev × List Action)
  unfolding ws_serve_exit
  request_read_cb p c b =
      if c.bev
      then (read_into p 1 b 1 >>= λ (byte, b').
          take_byte c byte >>= λ (c', out). some (c', b', out))
      else some (c, b, ws_serve_exit (some c))

  -- `k` turns of the event loop, each of which calls `request_read_cb`.
  abbrev pub request_turns : (p : Platform) → ℕ → Conn → p.Bev → Option (Conn × p.Bev × List Action)
  request_turns p zero c b = some (c, b, [])
  request_turns p (suc k) c b = request_read_cb p c b >>= λ (c', b', out).
      request_turns p k c' b' >>= λ (c'', b'', more). some (c'', b'', out ++ more)

-- `response_write_cb(bev, ctx)`.
unfoldable pub response_write_cb : Option Conn → Option Conn × List Action
unfolding frame_recv_loop ws_serve_exit
response_write_cb none = (none, [])
response_write_cb (some c) =
    if c.bev
    then (let (c', out) = frame_recv_loop (some c) in (c', fire c.handshake_cb_unit c.frame ++ out))
    else (some c, ws_serve_exit (some c))
