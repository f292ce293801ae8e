-- ===== src/Ws/Handshake/Totality.antt =====
-- Where `parse_websocket_request` stays within its buffer.
use sdk_cp.Base.{
  ℕ, ◌≡◌, refl, ap, ◌∙◌, Bool, true, false, not, ◌||◌, if◌then◌else◌, ◌==◌, Option, some, List, [],
  ◌∷◌, ◌++◌, All, Bool-cases, Option-cases, inl, inr, ◌>>=◌,
}
use Prim.Native.String.{String}
use sdk_cp.Ws.Base64.{codes}
use sdk_cp.Ws.Websocket.{done}
use sdk_cp.Ws.Handshake.{
  WsReq, c_str, is_delim, Token, take_token, tokens, at_colon, skip_spaces, same_text, put_header,
  past_first, parse_header, parse_headers, parse_lines, parse_websocket_request,
}

abbrev pub IsSome {ℓ} : {A : Type ℓ} → Option A → Type ℓ
IsSome {A = A} o = (a : A) × (o ≡ some a)

-- No NUL.
abbrev pub IsText : List ℕ → Type 0
IsText s = All (λ c. (c == 0) ≡ false) s

c_str-IsText : (s : List ℕ) → IsText s → c_str s ≡ s
c_str-IsText [] h = refl
c_str-IsText (c ∷ cs) h = rw (h.0, c_str-IsText cs h.1)

-- A token that ends before the buffer does.
abbrev Ended : Token → Type 0
Ended t = IsSome t.behind

module _ (d : ℕ) (delim : is_delim d ≡ true) where
  take_token-Ended : (u : List ℕ) → Ended (take_token (u ++ (d ∷ [])))
  take_token-Ended [] = ([], rw delim)
  take_token-Ended (c ∷ cs) = elim (Bool-cases (is_delim c)) [
    | inl ends ↦ (cs ++ (d ∷ []), rw ends)
    | inr goes ↦ let (x, e) = take_token-Ended cs in (x, rw (goes, e))
  ]

  tokens-Ended : (inside : Bool) (u : List ℕ) → All Ended (tokens inside (u ++ (d ∷ [])))
  tokens-Ended inside [] = rw delim tt
  tokens-Ended inside (c ∷ cs) = elim (Bool-cases (is_delim c || inside)) [
    | inl skipped ↦ rw skipped (tokens-Ended (not (is_delim c)) cs)
    | inr begins ↦ rw begins (take_token-Ended (c ∷ cs), tokens-Ended (not (is_delim c)) cs)
  ]

if-IsSome {ℓ} :
    {A : Type ℓ} (b : Bool) {x y : Option A} → IsSome x → IsSome y → IsSome (if b then x else y)
if-IsSome true hx hy = hx
if-IsSome false hx hy = hy

past_first-IsSome : (q x : List ℕ) → IsSome (past_first q (some x))
past_first-IsSome [] x = (x, refl)
past_first-IsSome (c ∷ cs) x = (cs, refl)

put_header-IsSome : (name q x : List ℕ) (r : WsReq) → IsSome (put_header name q (some x) r)
put_header-IsSome name q x r =
    let (h, e) = past_first-IsSome q x in
    if-IsSome (named "Connection") (record r { connection = q }, refl)
      (if-IsSome (named "Upgrade") (record r { upgrade = q }, refl)
        (if-IsSome (named "Host")
          (record r { host = h }, ap (λ o. o >>= λ h. some (record r { host = h })) e)
          (if-IsSome (named "Origin") (record r { origin = q }, refl)
            (if-IsSome (named "Cookie") (record r { cookie = q }, refl)
              (if-IsSome (named "Sec-WebSocket-Key") (record r { sec_websocket_key = q }, refl)
                (if-IsSome (named "Sec-WebSocket-Version")
                  (record r { sec_websocket_version = q }, refl) (r, refl)))))))
  where
    named : String → Bool
    named s = same_text name (codes s)

parse_header-IsSome : (t : Token) (r : WsReq) → Ended t → IsSome (parse_header t r)
parse_header-IsSome t r (x, e) = elim (Option-cases (at_colon t.text)) [
  | inl without ↦ (r, rw (parse_header, without))
  | inr ((name, value), split) ↦
      let (r', put) = put_header-IsSome name (skip_spaces value) x r in
      (r', rw (parse_header, split, e) put)
]

parse_headers-IsSome : (ts : List Token) (r : WsReq) → All Ended ts → IsSome (parse_headers ts r)
parse_headers-IsSome [] r h = (r, refl)
parse_headers-IsSome (t ∷ ts) r h =
    let (r', e) = parse_header-IsSome t r h.0 in
    let (r'', e') = parse_headers-IsSome ts r' h.1 in
    (r'', ap (λ m. m >>= λ r'. parse_headers ts r') e ∙ e')

parse_lines-IsSome : (ts : List Token) (r : WsReq) → All Ended ts → IsSome (parse_lines ts r)
parse_lines-IsSome [] r h = (r, refl)
parse_lines-IsSome (t ∷ ts) r h = parse_headers-IsSome ts (record r { req = t.text }) h.1

-- A request without a NUL that ends in a CR or LF is parsed without a read past the buffer, and the answer is 0.
pub parse_websocket_request_defined :
    (u : List ℕ) (d : ℕ) (r : WsReq)
    → is_delim d ≡ true
    → IsText (u ++ (d ∷ []))
    → (r' : WsReq) × (parse_websocket_request (some (u ++ (d ∷ []))) (some r)
        ≡ some (done, some r'))
unfolding parse_websocket_request
parse_websocket_request_defined u d r delim text =
    let (r', e) =
      parse_lines-IsSome (tokens false (u ++ (d ∷ []))) r (tokens-Ended d delim false u) in
    (
      r',
      ap (λ s. parse_lines (tokens false s) r >>= λ r'. some (done, some r'))
            (c_str-IsText (u ++ (d ∷ [])) text)
          ∙ ap (λ m. m >>= λ r'. some (done, some r')) e,
    )
