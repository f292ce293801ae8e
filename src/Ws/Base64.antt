-- ===== src/Ws/Base64.antt =====
-- web_server/ws/base64.h: `base64_encode`, which makes the key of the handshake's answer.
pub mod Groups
pub mod RoundTrip
use sdk_cp.Base.{
  ℕ, zero, suc, ◌+◌, ◌-◌, ◌<<<◌, ◌>>>◌, u8, bit_and, if◌then◌else◌, ◌==◌, List, [], ◌∷◌, ◌++◌, map,
  get_or, set, take, replicate,
}
use Prim.Native.String.{String}
use Prim.Native.String
use Prim.Native.Char.{code}

abbrev pub codes : String → List ℕ
codes String.[] = []
codes (String.◌∷◌ c s) = code c ∷ codes s

abbrev pub base64_chars : List ℕ
base64_chars = codes "ABCDEFGHIJKLMNOPQRSTUVWXYZabcdefghijklmnopqrstuvwxyz0123456789+/"

-- `base64_chars[n]`.
abbrev pub base64_char : ℕ → ℕ
base64_char n = get_or base64_chars n 0

-- `char_array_4`, from `char_array_3`.
abbrev pub char_array_4 : List ℕ → List ℕ
char_array_4 a =
    let b0 = get_or a 0 0 in
    let b1 = get_or a 1 0 in
    let b2 = get_or a 2 0 in
    (bit_and b0 0xfc >>> 2)
    ∷ u8 ((bit_and b0 0x03 <<< 4) + (bit_and b1 0xf0 >>> 4))
    ∷ u8 ((bit_and b1 0x0f <<< 2) + (bit_and b2 0xc0 >>> 6))
    ∷ bit_and b2 0x3f
    ∷ []

-- `while (in_len--)`: the bytes to come, `i`, `char_array_3` and what is appended to `ret`.
unfoldable pub encode_loop : List ℕ → ℕ → List ℕ → List ℕ → ℕ × List ℕ × List ℕ
encode_loop [] i a ret = (i, a, ret)
encode_loop (b ∷ bs) i a ret =
    let a' = set a i b in
    encode_loop bs (if i + 1 == 3 then 0 else i + 1) a'
      (if i + 1 == 3 then ret ++ map base64_char (char_array_4 a') else ret)

-- `for (j = i; j < 3; j++) char_array_3[j] = '\0'`, on the `k` rounds left.
abbrev pub zero_from : ℕ → ℕ → List ℕ → List ℕ
zero_from zero j a = a
zero_from (suc k) j a = zero_from k (j + 1) (set a j 0)

-- `if (i)`: the last group and its padding.
unfoldable pub encode_rest : ℕ → List ℕ → List ℕ → List ℕ
encode_rest i a ret =
    if i == 0
    then ret
    else ret
      ++ (take (i + 1) (map base64_char (char_array_4 (zero_from (3 - i) i a)))
          ++ replicate (3 - i) b'=')

-- `base64_encode(ret, bytes, in_len)`; `a` is what the array holds when it is not yet written.
unfoldable pub base64_encode : List ℕ → List ℕ → List ℕ → List ℕ
base64_encode a ret bytes = let (i, a', ret') = encode_loop bytes 0 a ret in encode_rest i a' ret'
