-- ===== src/Ws/Base64/RoundTrip.antt =====
-- A decoder of RFC 4648 (4) reads back what `base64_encode` wrote.
use sdk_cp.Base.{
  ℕ, ◌+◌, ◌-◌, ◌*◌, ◌/◌, ◌%◌, ◌<◌, ◌≡◌, refl, arith, ap, ◌∙◌, Bool, true, false, ◌&&◌, leb, ◌==◌,
  not, if◌then◌else◌, IsByte, All, Option, none, some, List, [], ◌∷◌, ◌>>=◌, zero, suc,
}
use sdk_cp.Ws.Base64.{base64_char, base64_encode}
use sdk_cp.Ws.Base64.Groups.{encoding, encode-encoding}

-- The value of a character.
abbrev pub sextet : ℕ → Option ℕ
sextet c =
    if leb b'A' c && leb c b'Z'
    then some (c - b'A')
    else if leb b'a' c && leb c b'z'
    then some (c - b'a' + 26)
    else if leb b'0' c && leb c b'9'
    then some (c - b'0' + 52)
    else if c == b'+'
    then some 62
    else if c == b'/'
    then some 63
    else none

-- A group of four characters, with what the groups behind it decode to.
unfoldable pub decode_group : ℕ → ℕ → ℕ → ℕ → Option (List ℕ) → Option (List ℕ)
decode_group p q r s more = sextet p >>= λ a. sextet q >>= λ b.
    if r == b'='
    then some ((a * 4 + b / 16) ∷ [])
    else (sextet r >>= λ c.
        if s == b'='
        then some ((a * 4 + b / 16) ∷ (b % 16 * 16 + c / 4) ∷ [])
        else (sextet s >>= λ d. more >>= λ bytes.
            some ((a * 4 + b / 16) ∷ (b % 16 * 16 + c / 4) ∷ (c % 4 * 64 + d) ∷ bytes)))

unfoldable pub decode : List ℕ → Option (List ℕ)
decode [] = some []
decode (p ∷ q ∷ r ∷ s ∷ rest) = decode_group p q r s (decode rest)
decode _ = none

-- A test that every character below `m` passes.
passes : (ℕ → Bool) → ℕ → Bool
passes test zero = true
passes test (suc m) = if test m then passes test m else false

passes_at : (test : ℕ → Bool) (m c : ℕ) → c < m → passes test m ≡ true → test c ≡ true
unfolding passes
passes_at test zero c lt all = absurd (omega arith)
passes_at test (suc m) c lt all = ground (arith, passes_at test m c)

-- Whether a character stands for the value that it was made from, and is no padding.
reads_back : ℕ → Bool
reads_back n = elim (sextet (base64_char n)) [
  | none ↦ false
  | some m ↦ m == n && (not (base64_char n == b'='))
]

table : passes reads_back 64 ≡ true
unfolding passes reads_back
table = refl

reads_back-eq :
    (n : ℕ) (o : Option ℕ) (padding : Bool)
    → elim o [ none ↦ false | some m ↦ m == n && not padding ] ≡ true
    → (o ≡ some n) × (padding ≡ false)
reads_back-eq n none padding h = cc
reads_back-eq n (some m) padding h = ground arith

module _ (n : ℕ) (h : n < 64) where
  sextet_facts : (sextet (base64_char n) ≡ some n) × ((base64_char n == b'=') ≡ false)
  unfolding reads_back
  sextet_facts = reads_back-eq n _ _ (passes_at reads_back 64 n h table)

  sextet-char : sextet (base64_char n) ≡ some n
  sextet-char = sextet_facts.0

  char_not_padding : (base64_char n == b'=') ≡ false
  char_not_padding = sextet_facts.1

decode_group_one :
    (a : ℕ) (more : Option (List ℕ))
    → a < 256
    → decode_group (base64_char (a / 4)) (base64_char (a % 4 * 16)) b'=' b'=' more ≡ some (a ∷ [])
unfolding decode_group
decode_group_one a more h =
    rw (sextet-char (a / 4) (omega arith), sextet-char (a % 4 * 16) (omega arith)) (ground arith)

decode_group_two :
    (a b : ℕ) (more : Option (List ℕ))
    → a < 256
    → b < 256
    → decode_group
        (base64_char (a / 4))
        (base64_char (a % 4 * 16 + b / 16))
        (base64_char (b % 16 * 4))
        b'='
        more
      ≡ some (a ∷ b ∷ [])
unfolding decode_group
decode_group_two a b more ha hb =
    rw
      (
        sextet-char (a / 4) (omega arith),
        sextet-char (a % 4 * 16 + b / 16) (omega arith),
        char_not_padding (b % 16 * 4) (omega arith),
        sextet-char (b % 16 * 4) (omega arith),
      )
      (ground arith)

decode_group_three :
    (a b c : ℕ) (bytes : List ℕ)
    → a < 256
    → b < 256
    → c < 256
    → decode_group
        (base64_char (a / 4))
        (base64_char (a % 4 * 16 + b / 16))
        (base64_char (b % 16 * 4 + c / 64))
        (base64_char (c % 64))
        (some bytes)
      ≡ some (a ∷ b ∷ c ∷ bytes)
unfolding decode_group
decode_group_three a b c bytes ha hb hc =
    rw
      (
        sextet-char (a / 4) (omega arith),
        sextet-char (a % 4 * 16 + b / 16) (omega arith),
        char_not_padding (b % 16 * 4 + c / 64) (omega arith),
        sextet-char (b % 16 * 4 + c / 64) (omega arith),
        char_not_padding (c % 64) (omega arith),
        sextet-char (c % 64) (omega arith),
      )
      (ground arith)

decode-encoding : (bytes : List ℕ) → All IsByte bytes → decode (encoding bytes) ≡ some bytes
unfolding decode encoding
decode-encoding [] h = refl
decode-encoding (a ∷ []) h = decode_group_one a (some []) h.0
decode-encoding (a ∷ b ∷ []) h = decode_group_two a b (some []) h.0 h.1.0
decode-encoding (a ∷ b ∷ c ∷ rest) h =
    rw (decode-encoding rest h.1.1.1) (decode_group_three a b c rest h.0 h.1.0 h.1.1.0)

-- A decoder of RFC 4648, written here, reads what `base64_encode` makes of any bytes back as those
-- bytes, whatever the scratch array of three held before.
pub decode-base64_encode :
    (x y z : ℕ) (bytes : List ℕ)
    → All IsByte bytes
    → decode (base64_encode (x ∷ y ∷ z ∷ []) [] bytes) ≡ some bytes
decode-base64_encode x y z bytes h =
    ap decode (encode-encoding bytes x y z [] h) ∙ decode-encoding bytes h
