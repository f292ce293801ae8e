-- ===== src/Ws/Handshake.antt =====
-- The handshake of web_server/ws/websocket.h and websocket.cpp: the request, as it is parsed and
-- printed, and the response. SHA1 is a parameter.
pub mod RoundTrip
pub mod Totality
pub mod Accept
mod Tests
use sdk_cp.Base.{
  ℕ, ◌+◌, Bool, true, false, not, ◌&&◌, ◌||◌, if◌then◌else◌, leb, ◌==◌, Option, none, some, List,
  [], ◌∷◌, ◌++◌, map, ◌>>=◌,
}
use sdk_cp.Ws.Websocket.{Status, done, failed}
use sdk_cp.Ws.Base64.{codes, base64_encode}

-- `ws_req_t`.
pub record WsReq : Type 0 where
  pub req : List ℕ
  pub connection : List ℕ
  pub upgrade : List ℕ
  pub host : List ℕ
  pub origin : List ℕ
  pub cookie : List ℕ
  pub sec_websocket_key : List ℕ
  pub sec_websocket_version : List ℕ

-- The string up to its first NUL, as `strlen` sees it.
abbrev pub c_str : List ℕ → List ℕ
c_str [] = []
c_str (c ∷ cs) = if c == 0 then [] else c ∷ c_str cs

-- A character of `delim`.
abbrev pub is_delim : ℕ → Bool
is_delim c = c == 13 || c == 10

-- What `strtok` answers: the token, and the buffer behind the NUL that it wrote, if it wrote one.
pub record Token : Type 0 where
  pub text : List ℕ
  pub behind : Option (List ℕ)

abbrev pub take_token : List ℕ → Token
take_token [] = record { text = []; behind = none }
take_token (c ∷ cs) =
    let t = take_token cs in
    if is_delim c then record { text = []; behind = some cs } else record t { text = c ∷ t.text }

-- The tokens of the calls of `strtok`; `inside` says that the character before belongs to a token.
abbrev pub tokens : Bool → List ℕ → List Token
tokens inside [] = []
tokens inside (c ∷ cs) =
    let rest = tokens (not (is_delim c)) cs in
    if is_delim c || inside then rest else take_token (c ∷ cs) ∷ rest

-- `strstr(p, ":")`: what stands before and behind it.
abbrev pub at_colon : List ℕ → Option (List ℕ × List ℕ)
at_colon [] = none
at_colon (c ∷ cs) =
    let rest = at_colon cs in
    if c == b':' then some ([], cs) else (rest >>= λ (name, value). some (c ∷ name, value))

abbrev pub lower : ℕ → ℕ
lower c = if leb b'A' c && leb c b'Z' then c + 32 else c

-- `stricmp(a, b) == 0`.
abbrev pub same_text : List ℕ → List ℕ → Bool
same_text [] [] = true
same_text [] (d ∷ ds) = false
same_text (c ∷ cs) [] = false
same_text (c ∷ cs) (d ∷ ds) = lower c == lower d && same_text cs ds

-- `while (*++q == ' ')`.
abbrev pub skip_spaces : List ℕ → List ℕ
skip_spaces [] = []
skip_spaces (c ∷ cs) = if c == b' ' then skip_spaces cs else c ∷ cs

-- The string at `q + 1`: at the end of a token it lies behind the token's NUL.
abbrev pub past_first : List ℕ → Option (List ℕ) → Option (List ℕ)
past_first [] behind = behind
past_first (c ∷ cs) behind = some cs

-- The tests on the name of a header.
abbrev pub put_header : List ℕ → List ℕ → Option (List ℕ) → WsReq → Option WsReq
put_header name q behind r =
    if same_text name (codes "Connection")
    then some (record r { connection = q })
    else if same_text name (codes "Upgrade")
    then some (record r { upgrade = q })
    else if same_text name (codes "Host")
    then (past_first q behind >>= λ h. some (record r { host = h }))
    else if same_text name (codes "Origin")
    then some (record r { origin = q })
    else if same_text name (codes "Cookie")
    then some (record r { cookie = q })
    else if same_text name (codes "Sec-WebSocket-Key")
    then some (record r { sec_websocket_key = q })
    else if same_text name (codes "Sec-WebSocket-Version")
    then some (record r { sec_websocket_version = q })
    else some r

-- A line behind the first.
abbrev pub parse_header : Token → WsReq → Option WsReq
parse_header t r = elim (at_colon t.text) [
  | none ↦ some r
  | some (name, value) ↦ put_header name (skip_spaces value) t.behind r
]

abbrev pub parse_headers : List Token → WsReq → Option WsReq
parse_headers [] r = some r
parse_headers (t ∷ ts) r = parse_header t r >>= λ r'. parse_headers ts r'

abbrev pub parse_lines : List Token → WsReq → Option WsReq
parse_lines [] r = some r
parse_lines (t ∷ ts) r = parse_headers ts (record r { req = t.text })

-- `parse_websocket_request(s_req, ws_req)`; `none` is a read past the buffer.
unfoldable pub parse_websocket_request :
    Option (List ℕ) → Option WsReq → Option (Status × Option WsReq)
parse_websocket_request none r = some (failed, r)
parse_websocket_request (some s) none = some (failed, none)
parse_websocket_request (some s) (some r) =
    parse_lines (tokens false (c_str s)) r >>= λ r'. some (done, some r')

abbrev pub crlf : List ℕ
crlf = 13 ∷ 10 ∷ []

-- A header that is printed if it is not empty.
abbrev pub print_header : List ℕ → List ℕ → List ℕ
print_header name [] = []
print_header name (c ∷ cs) = name ++ (b':' ∷ b' ' ∷ c ∷ (cs ++ crlf))

-- What `print_websocket_request(ws_req)` writes, for strings without a NUL.
unfoldable pub print_websocket_request : Option WsReq → List ℕ
print_websocket_request none = []
print_websocket_request (some r) =
    (elim r.req [ [] ↦ [] | c ∷ cs ↦ c ∷ (cs ++ crlf) ])
    ++ (print_header (codes "Connection") r.connection
        ++ (print_header (codes "Upgrade") r.upgrade
            ++ (print_header (codes "Host") r.host
                ++ (print_header (codes "Origin") r.origin
                    ++ (print_header (codes "Cookie") r.cookie
                        ++ (print_header (codes "Sec-WebSocket-Key") r.sec_websocket_key
                            ++ (print_header (codes "Sec-WebSocket-Version") r.sec_websocket_version
                                ++ crlf)))))))

abbrev pub guid : List ℕ
guid = codes "258EAFA5-E914-47DA-95CA-C5AB0DC85B11"

module _ (sha1 : List ℕ → List ℕ) where
  -- `generate_key(key)`; `scratch` is what the encoder's array holds before it is written.
  unfoldable pub generate_key : List ℕ → List ℕ → List ℕ
  generate_key scratch key = base64_encode scratch [] (sha1 (key ++ guid))

  -- `generate_websocket_response(ws_req)`.
  unfoldable pub generate_websocket_response : List ℕ → Option WsReq → List ℕ
  generate_websocket_response scratch none = []
  generate_websocket_response scratch (some r) =
      codes "HTTP/1.1 101 WebSocket Protocol HandShake"
      ++ (crlf
          ++ (codes "Connection: Upgrade"
              ++ (crlf
                  ++ (codes "Upgrade: WebSocket"
                      ++ (crlf
                          ++ (codes "Server: WebChat Demo Server"
                              ++ (crlf
                                  ++ (codes "Sec-WebSocket-Accept: "
                                      ++ (generate_key scratch r.sec_websocket_key
                                          ++ (crlf ++ crlf))))))))))
