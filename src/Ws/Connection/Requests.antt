-- ===== src/Ws/Connection/Requests.antt =====
-- The handshake's request is read to its end, byte by byte, and answered.
use sdk_cp.Base.{
  true≢false, ℕ, suc, ◌≡◌, refl, arith, ap, ◌∙◌, true, false, some, List, [], ◌∷◌, ◌++◌,
  append_assoc, length, ◌>>=◌, zero, ◌-◌, sym, ap₂, take, drop, drop-append_length, length-append,
  leb, le→leb, false, ◌&&◌, ◌==◌, ==_iff, Bool-cases, inl, inr,
}
use sdk_cp.Ws.Websocket.{Status}
use sdk_cp.Ws.Handshake.{WsReq, parse_websocket_request, generate_websocket_response}
use sdk_cp.Ws.Handshake.RoundTrip.{empty_req}
use sdk_cp.Ws.Connection.{Platform, Conn, Action, disable_read, write_out}
use sdk_cp.Ws.Connection.Reads.{queued-read, read_into-front}
use sdk_cp.Ws.Connection.Opening.{
  same_bytes, ends_request, respond_websocket_request, take_byte, request_read_cb, request_turns,
}

-- The bytes end with a blank line: CR LF CR LF.
abbrev pub HasBlankLine : List ℕ → Type 0
HasBlankLine s = (front : List ℕ) × (s ≡ front ++ (13 ∷ 10 ∷ 13 ∷ 10 ∷ []))

-- Behind what is read already, the first blank line ends with the last of these bytes.
abbrev pub EndsOnce : List ℕ → List ℕ → Type 0
EndsOnce seen [] = ⊥
EndsOnce seen (b ∷ []) = HasBlankLine (seen ++ (b ∷ []))
EndsOnce seen (b ∷ b' ∷ bs) =
    (¬ HasBlankLine (seen ++ (b ∷ []))) × EndsOnce (seen ++ (b ∷ [])) (b' ∷ bs)

take-drop : (n : ℕ) (s : List ℕ) → s ≡ take n s ++ drop n s
take-drop zero s = refl
take-drop (suc n) [] = refl
take-drop (suc n) (x ∷ s) = ap (λ l. x ∷ l) (take-drop n s)

same_bytes-eq : (s t : List ℕ) → same_bytes s t ≡ true → s ≡ t
same_bytes-eq [] [] e = refl
same_bytes-eq [] (d ∷ ds) e = absurd (true≢false (sym e))
same_bytes-eq (c ∷ cs) [] e = absurd (true≢false (sym e))
same_bytes-eq (c ∷ cs) (d ∷ ds) e = elim (Bool-cases (c == d)) [
  | inl t ↦
      ap₂ (λ x l. x ∷ l) ((==_iff c d).0 t)
        (same_bytes-eq cs ds (ap (λ b. b && same_bytes cs ds) (sym t) ∙ e))
  | inr f ↦ absurd (true≢false (sym e ∙ ap (λ b. b && same_bytes cs ds) f))
]

pub HasBlankLine-ends_request : (s : List ℕ) → HasBlankLine s → ends_request s ≡ true
HasBlankLine-ends_request s (front, e) = rw (
  e,
  long,
  ap (λ (n : ℕ). drop n (front ++ (13 ∷ 10 ∷ 13 ∷ 10 ∷ []))) measure,
  drop-append_length front (13 ∷ 10 ∷ 13 ∷ 10 ∷ []),
)
  where
    long : leb 4 (length (front ++ (13 ∷ 10 ∷ 13 ∷ 10 ∷ []))) ≡ true
    long = le→leb 4 _ (omega (arith, length-append front (13 ∷ 10 ∷ 13 ∷ 10 ∷ [])))

    measure : length (front ++ (13 ∷ 10 ∷ 13 ∷ 10 ∷ [])) - 4 ≡ length front
    measure = omega (arith, length-append front (13 ∷ 10 ∷ 13 ∷ 10 ∷ []))

ends_request-HasBlankLine : (s : List ℕ) → ends_request s ≡ true → HasBlankLine s
ends_request-HasBlankLine s e = elim (Bool-cases (leb 4 (length s))) [
  | inl t ↦ (
    take (length s - 4) s,
    take-drop (length s - 4) s
        ∙ ap (λ l. take (length s - 4) s ++ l)
            (same_bytes-eq (drop (length s - 4) s) (13 ∷ 10 ∷ 13 ∷ 10 ∷ []) (
              ap (λ b. b && same_bytes (drop (length s - 4) s) (13 ∷ 10 ∷ 13 ∷ 10 ∷ [])) (sym t)
              ∙ e)),
  )
  | inr f ↦ absurd (
      true≢false
        (sym e ∙ ap (λ b. b && same_bytes (drop (length s - 4) s) (13 ∷ 10 ∷ 13 ∷ 10 ∷ [])) f))
]

no_blank_line : (s : List ℕ) → ¬ HasBlankLine s → ends_request s ≡ false
no_blank_line s none_yet = elim (Bool-cases (ends_request s)) [
  | inl t ↦ absurd (none_yet (ends_request-HasBlankLine s t))
  | inr f ↦ f
]

-- A connection with its bufferevent that has read `seen` of the request.
abbrev pub reading : Conn → List ℕ → Conn
reading c seen = record c { bev = true; ws_req_str = seen }

module _ (sha1 : List ℕ → List ℕ) (scratch : List ℕ) where
  -- The connection and the actions at the end of the request.
  abbrev pub answered : Conn → List ℕ → WsReq → Conn
  answered c req r = record (reading c req) {
    ws_resp_str = generate_websocket_response sha1 scratch (some r);
  }

  -- A response is never empty, so it is written.
  responds :
      (c : Conn) (req : List ℕ) (status : Status) (r : WsReq)
      → parse_websocket_request (some req) (some empty_req) ≡ some (status, some r)
      → respond_websocket_request sha1 scratch (reading c req)
        ≡ some
            (answered c req r, write_out (generate_websocket_response sha1 scratch (some r)) ∷ [])
  unfolding respond_websocket_request generate_websocket_response
  responds c req status r parsed = rw parsed

  module _ (p : Platform) where
    turn-read :
        (c : Conn) (seen : List ℕ) (b : p.Bev) (byte : ℕ) (rest : List ℕ)
        → p.queued b ≡ byte ∷ rest
        → request_read_cb sha1 scratch p (reading c seen) b ≡ (
            take_byte sha1 scratch (reading c seen) (byte ∷ []) >>= λ (c', out).
            some (c', (p.read b 1).1, out))
    unfolding request_read_cb
    turn-read c seen b byte rest q =
        rw (read_into-front p b (byte ∷ []) rest 1 q refl 1 (omega arith))

    turn-more :
        (c : Conn) (seen : List ℕ) (b : p.Bev) (byte : ℕ) (rest : List ℕ)
        → p.queued b ≡ byte ∷ rest
        → ends_request (seen ++ (byte ∷ [])) ≡ false
        → request_read_cb sha1 scratch p (reading c seen) b
          ≡ some (reading c (seen ++ (byte ∷ [])), (p.read b 1).1, [])
    unfolding take_byte
    turn-more c seen b byte rest q open_end = turn-read c seen b byte rest q ∙ rw open_end

    turns-more :
        (k : ℕ) (c c1 c2 : Conn) (b b1 b2 : p.Bev) (out : List Action)
        → request_read_cb sha1 scratch p c b ≡ some (c1, b1, [])
        → request_turns sha1 scratch p k c1 b1 ≡ some (c2, b2, out)
        → request_turns sha1 scratch p (suc k) c b ≡ some (c2, b2, out)
    turns-more k c c1 c2 b b1 b2 out turned others = rw (turned, others)

    turn-last :
        (c : Conn) (seen : List ℕ) (b : p.Bev) (byte : ℕ) (rest : List ℕ) (status : Status)
        (r : WsReq)
        → p.queued b ≡ byte ∷ rest
        → ends_request (seen ++ (byte ∷ [])) ≡ true
        → parse_websocket_request (some (seen ++ (byte ∷ []))) (some empty_req)
          ≡ some (status, some r)
        → request_read_cb sha1 scratch p (reading c seen) b
          ≡ some (
            answered c (seen ++ (byte ∷ [])) r,
            (p.read b 1).1,
            disable_read ∷ write_out (generate_websocket_response sha1 scratch (some r)) ∷ [],
          )
    unfolding take_byte
    turn-last c seen b byte rest status r q ended parsed =
        turn-read c seen b byte rest q
        ∙ rw (ended, responds c (seen ++ (byte ∷ [])) status r parsed)

    -- A request is read and answered. When the input starts with the bytes `more` that complete the
    -- request `seen ++ more`, and the blank line that ends it comes with the last of them and no
    -- earlier, then as many turns of the event loop as there are bytes take exactly these off the
    -- input, and the last one stops reading and writes the response to the request as it is parsed;
    -- the other turns do nothing on the outside. The request is one whose parsing is defined.
    pub receives_request :
        (c : Conn) (seen more rest : List ℕ) (b : p.Bev) (status : Status) (r : WsReq)
        → EndsOnce seen more
        → p.queued b ≡ more ++ rest
        → parse_websocket_request (some (seen ++ more)) (some empty_req) ≡ some (status, some r)
        → (b' : p.Bev) × (request_turns sha1 scratch p (length more) (reading c seen) b
            ≡ some (
              answered c (seen ++ more) r,
              b',
              disable_read ∷ write_out (generate_websocket_response sha1 scratch (some r)) ∷ [],
            ))
          × (p.queued b' ≡ rest)
    receives_request c seen [] rest b status r ends q parsed = absurd ends
    receives_request c seen (byte ∷ []) rest b status r ends q parsed = (
      (p.read b 1).1,
      rw (
          turn-last c seen b byte rest status r q
            (HasBlankLine-ends_request (seen ++ (byte ∷ [])) ends) parsed),
      queued-read p b (byte ∷ []) rest 1 q refl,
    )
    receives_request c seen (byte ∷ next ∷ more) rest b status r (open_end, ends) q parsed =
        let whole : (seen ++ (byte ∷ [])) ++ (next ∷ more) ≡ seen ++ (byte ∷ next ∷ more) =
          append_assoc seen (byte ∷ []) (next ∷ more) in
        let (b', turns, left) =
          receives_request c (seen ++ (byte ∷ [])) (next ∷ more) rest (p.read b 1).1 status r ends
            (queued-read p b (byte ∷ []) (next ∷ more ++ rest) 1 q refl)
            (ap (λ s. parse_websocket_request (some s) (some empty_req)) whole ∙ parsed) in
        (
          b',
          turns-more (length (next ∷ more)) (reading c seen) (reading c (seen ++ (byte ∷ []))) _ b
              (p.read b 1).1 b' _
              (turn-more c seen b byte (next ∷ more ++ rest) q
                (no_blank_line (seen ++ (byte ∷ [])) open_end))
              (turns
                ∙ ap
                    (λ s. some (
                      answered c s r,
                      b',
                      disable_read
                          ∷ write_out (generate_websocket_response sha1 scratch (some r))
                          ∷ [],
                    ))
                    whole),
          left,
        )
