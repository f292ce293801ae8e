-- ===== src/Ws/Handshake/RoundTrip.antt =====
-- `parse_websocket_request` reads back what `print_websocket_request` wrote.
use sdk_cp.Base.{
  ℕ, ◌<◌, ◌≡◌, refl, arith, ap, sym, ◌∙◌, Bool, true, false, not, ◌&&◌, ◌||◌, ◌==◌, Option, some,
  List, [], ◌∷◌, ◌++◌, append_assoc, All, length, drop, ◌>>=◌,
}
use sdk_cp.Ws.Websocket.{done}
use sdk_cp.Ws.Base64.{codes}
use sdk_cp.Ws.Handshake.{
  WsReq, c_str, is_delim, Token, take_token, tokens, at_colon, skip_spaces, put_header,
  parse_header, parse_headers, parse_lines, parse_websocket_request, print_header,
  print_websocket_request, crlf,
}

-- Text of one line: no NUL, CR or LF.
abbrev pub IsPlain : List ℕ → Type 0
IsPlain v = All (λ c. ((c == 0) ≡ false) × (is_delim c ≡ false)) v

-- The value of a header starts with no space.
abbrev pub IsValue : List ℕ → Type 0
IsValue v = IsPlain v × (skip_spaces v ≡ v)

c_str-append : (v rest : List ℕ) → IsPlain v → c_str (v ++ rest) ≡ v ++ c_str rest
c_str-append [] rest h = refl
c_str-append (c ∷ cs) rest h = rw (h.0.0, c_str-append cs rest h.1)

take_token-line :
    (v rest : List ℕ)
    → IsPlain v
    → take_token (v ++ (13 ∷ rest)) ≡ record { text = v; behind = some rest }
take_token-line [] rest h = refl
take_token-line (c ∷ cs) rest h = rw (h.0.1, take_token-line cs rest h.1)

tokens-inside :
    (v rest : List ℕ) → IsPlain v → tokens true (v ++ (13 ∷ 10 ∷ rest)) ≡ tokens false rest
tokens-inside [] rest h = refl
tokens-inside (c ∷ cs) rest h = rw (h.0.1, tokens-inside cs rest h.1)

-- A line is one token.
tokens-line :
    (c : ℕ) (cs rest : List ℕ)
    → IsPlain (c ∷ cs)
    → tokens false ((c ∷ cs) ++ (13 ∷ 10 ∷ rest))
      ≡ record { text = c ∷ cs; behind = some (10 ∷ rest) } ∷ tokens false rest
tokens-line c cs rest h = rw (h.0.1, take_token-line cs (10 ∷ rest) h.1, tokens-inside cs rest h.1)

-- The name of a header has no colon.
abbrev IsName : List ℕ → Type 0
IsName name = All (λ c. (c == b':') ≡ false) name

at_colon-name :
    (name value : List ℕ) → IsName name → at_colon (name ++ (b':' ∷ value)) ≡ some (name, value)
at_colon-name [] value h = refl
at_colon-name (c ∷ cs) value h = rw (h.0, at_colon-name cs value h.1)

plain_line : (name v : List ℕ) → IsPlain name → IsPlain v → IsPlain (name ++ (b':' ∷ b' ' ∷ v))
plain_line [] v hn hv = ((refl, refl), ((refl, refl), hv))
plain_line (c ∷ cs) v hn hv = (hn.0, plain_line cs v hn.1 hv)

-- A printed header is that line and its end.
printed_line :
    (name v rest : List ℕ) (c : ℕ)
    → print_header name (c ∷ v) ++ rest ≡ (name ++ (b':' ∷ b' ' ∷ c ∷ v)) ++ (13 ∷ 10 ∷ rest)
printed_line name v rest c =
    append_assoc name (b':' ∷ b' ' ∷ c ∷ (v ++ crlf)) rest
    ∙ (ap (λ l. name ++ (b':' ∷ b' ' ∷ c ∷ l)) (append_assoc v crlf rest)
        ∙ sym (append_assoc name (b':' ∷ b' ' ∷ c ∷ v) (13 ∷ 10 ∷ rest)))

-- A line whose name and value are known.
parse_headers-line :
    (text name value : List ℕ) (behind : Option (List ℕ)) (ts : List Token) (r r' : WsReq)
    → at_colon text ≡ some (name, value)
    → put_header name (skip_spaces value) behind r ≡ some r'
    → parse_headers (record { text = text; behind = behind } ∷ ts) r ≡ parse_headers ts r'
parse_headers-line text name value behind ts r r' split put =
    ap (λ m. m >>= λ r'. parse_headers ts r') parsed
  where
    parsed : parse_header (record { text = text; behind = behind }) r ≡ some r'
    parsed = rw (parse_header, split, put)

-- The test that a name of a header passes.
abbrev name_test : List ℕ → Bool
name_test [] = true
name_test (c ∷ cs) = not (c == 0 || (is_delim c || c == b':')) && name_test cs

name_test-IsPlain : (name : List ℕ) → name_test name ≡ true → IsPlain name
name_test-IsPlain [] h = tt
name_test-IsPlain (c ∷ cs) h = ((ground arith, ground arith), name_test-IsPlain cs (ground arith))

name_test-IsName : (name : List ℕ) → name_test name ≡ true → IsName name
name_test-IsName [] h = tt
name_test-IsName (c ∷ cs) h = (ground arith, name_test-IsName cs (ground arith))

module _ (n : ℕ) (ns : List ℕ) (named : name_test (n ∷ ns) ≡ true) where
  plain : IsPlain (n ∷ ns)
  plain = name_test-IsPlain (n ∷ ns) named

  tokens-header :
      (c : ℕ) (v rest : List ℕ)
      → IsPlain (c ∷ v)
      → tokens false (c_str (print_header (n ∷ ns) (c ∷ v) ++ rest))
        ≡ record { text = (n ∷ ns) ++ (b':' ∷ b' ' ∷ c ∷ v); behind = some (10 ∷ c_str rest) }
          ∷ tokens false (c_str rest)
  tokens-header c v rest h =
      ap (λ l. tokens false (c_str l)) (printed_line (n ∷ ns) v rest c)
      ∙ (ap (tokens false) (
            c_str-append ((n ∷ ns) ++ (b':' ∷ b' ' ∷ c ∷ v)) (13 ∷ 10 ∷ rest)
              (plain_line (n ∷ ns) (c ∷ v) plain h))
          ∙ tokens-line n (ns ++ (b':' ∷ b' ' ∷ c ∷ v)) (c_str rest)
              (plain_line (n ∷ ns) (c ∷ v) plain h))

  -- A header whose tests on the name end in `set` is parsed so; one that is not printed leaves the
  -- request as it is.
  parse-header :
      (v rest : List ℕ) (r : WsReq) (set : List ℕ → WsReq)
      → IsValue v
      → set [] ≡ r
      → ((c : ℕ) (cs : List ℕ) (behind : Option (List ℕ))
          → put_header (n ∷ ns) (c ∷ cs) behind r ≡ some (set (c ∷ cs)))
      → parse_headers (tokens false (c_str (print_header (n ∷ ns) v ++ rest))) r
        ≡ parse_headers (tokens false (c_str rest)) (set v)
  parse-header [] rest r set h unset put =
      ap (parse_headers (tokens false (c_str rest))) (sym unset)
  parse-header (c ∷ v) rest r set h unset put =
      ap (λ ts. parse_headers ts r) (tokens-header c v rest h.0)
      ∙ parse_headers-line ((n ∷ ns) ++ (b':' ∷ b' ' ∷ c ∷ v)) (n ∷ ns) (b' ' ∷ c ∷ v)
          (some (10 ∷ c_str rest)) (tokens false (c_str rest)) r (set (c ∷ v))
          (at_colon-name (n ∷ ns) (b' ' ∷ c ∷ v) (name_test-IsName (n ∷ ns) named))
          (ap (λ q. put_header (n ∷ ns) q (some (10 ∷ c_str rest)) r) h.1
            ∙ put c v (some (10 ∷ c_str rest)))

abbrev pub empty_req : WsReq
empty_req = record {
  req = [];
  connection = [];
  upgrade = [];
  host = [];
  origin = [];
  cookie = [];
  sec_websocket_key = [];
  sec_websocket_version = [];
}

-- A request that prints as lines: there is a first line, and no header's value starts with a space.
abbrev pub IsPrintable : WsReq → Type 0
IsPrintable r =
    (0 < length r.req)
    × (IsPlain r.req
        × (IsValue r.connection
            × (IsValue r.upgrade
                × (IsValue r.host
                    × (IsValue r.origin
                        × (IsValue r.cookie
                            × (IsValue r.sec_websocket_key × IsValue r.sec_websocket_version)))))))

-- The headers as they are printed, up to the blank line.
abbrev pub printed_headers : WsReq → List ℕ
printed_headers r =
    print_header (codes "Connection") r.connection
    ++ (print_header (codes "Upgrade") r.upgrade
        ++ (print_header (codes "Host") r.host
            ++ (print_header (codes "Origin") r.origin
                ++ (print_header (codes "Cookie") r.cookie
                    ++ (print_header (codes "Sec-WebSocket-Key") r.sec_websocket_key
                        ++ (print_header (codes "Sec-WebSocket-Version") r.sec_websocket_version
                            ++ crlf))))))

-- Each header in turn; what is to come is still empty.
headers_read :
    (r : WsReq)
    → IsPrintable r
    → parse_headers (tokens false (c_str (printed_headers r))) (record empty_req { req = r.req })
      ≡ some (record r { host = drop 1 r.host })
headers_read r (some_req, (first, (h1, (h2, (h3, (h4, (h5, (h6, h7)))))))) =
    parse-header 67 (codes "onnection") refl r.connection _ _
      (λ v. record empty_req { req = r.req; connection = v }) h1 refl (λ c cs behind. refl)
    ∙ (parse-header 85 (codes "pgrade") refl r.upgrade _ _
          (λ v. record r {
            upgrade = v;
            host = [];
            origin = [];
            cookie = [];
            sec_websocket_key = [];
            sec_websocket_version = [];
          })
          h2 refl (λ c cs behind. refl)
        ∙ (parse-header 72 (codes "ost") refl r.host _ _
              (λ v. record r {
                host = drop 1 v;
                origin = [];
                cookie = [];
                sec_websocket_key = [];
                sec_websocket_version = [];
              })
              h3 refl (λ c cs behind. refl)
            ∙ (parse-header 79 (codes "rigin") refl r.origin _ _
                  (λ v. record r {
                    host = drop 1 r.host;
                    origin = v;
                    cookie = [];
                    sec_websocket_key = [];
                    sec_websocket_version = [];
                  })
                  h4 refl (λ c cs behind. refl)
                ∙ (parse-header 67 (codes "ookie") refl r.cookie _ _
                      (λ v. record r {
                        host = drop 1 r.host;
                        cookie = v;
                        sec_websocket_key = [];
                        sec_websocket_version = [];
                      })
                      h5 refl (λ c cs behind. refl)
                    ∙ (parse-header 83 (codes "ec-WebSocket-Key") refl r.sec_websocket_key _ _
                          (λ v. record r {
                            host = drop 1 r.host;
                            sec_websocket_key = v;
                            sec_websocket_version = [];
                          })
                          h6 refl (λ c cs behind. refl)
                        ∙ parse-header 83 (codes "ec-WebSocket-Version") refl
                            r.sec_websocket_version crlf _
                            (λ v. record r { host = drop 1 r.host; sec_websocket_version = v }) h7
                            refl (λ c cs behind. refl))))))

print_first : List ℕ → List ℕ
print_first [] = []
print_first (c ∷ cs) = c ∷ (cs ++ crlf)

-- The first line.
parse_lines-first :
    (q rest : List ℕ) (r : WsReq)
    → 0 < length q
    → IsPlain q
    → parse_lines (tokens false (c_str (print_first q ++ rest))) r
      ≡ parse_headers (tokens false (c_str rest)) (record r { req = q })
unfolding print_first
parse_lines-first [] rest r pos plain = absurd (omega arith)
parse_lines-first (c ∷ cs) rest r pos plain =
    ap (λ l. parse_lines (tokens false (c_str l)) r) (append_assoc (c ∷ cs) crlf rest)
    ∙ (ap (λ l. parse_lines (tokens false l) r) (c_str-append (c ∷ cs) (crlf ++ rest) plain)
        ∙ ap (λ ts. parse_lines ts r) (tokens-line c cs (c_str rest) plain))

-- What `print_websocket_request` writes of a request with a first line and header values without a
-- NUL, CR or LF, none of them starting with a space, is parsed by `parse_websocket_request`, into an
-- empty `ws_req_t`, as that request, except for the host, which loses its first character.
pub parse_websocket_request-print_websocket_request :
    (r : WsReq)
    → IsPrintable r
    → parse_websocket_request (some (print_websocket_request (some r))) (some empty_req)
      ≡ some (done, some (record r { host = drop 1 r.host }))
unfolding parse_websocket_request print_websocket_request print_first
parse_websocket_request-print_websocket_request r h =
    ap (λ m. m >>= λ r'. some (done, some r'))
      (parse_lines-first r.req (printed_headers r) empty_req h.0 h.1.0 ∙ headers_read r h)
