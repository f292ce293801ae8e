-- ===== src/Ws/Base64/Groups.antt =====
-- `base64_encode` writes the groups of RFC 4648 (4): three bytes as four characters, a last group of
-- one or two bytes filled with zero bits and padded.
use sdk_cp.Base.{
  ℕ, ◌+◌, ◌-◌, ◌*◌, ◌/◌, ◌%◌, ◌<◌, ◌^◌, ◌<<<◌, ◌>>>◌, ◌≡◌, arith, ap, sym, ◌∙◌, u8, bit_and, IsByte,
  All, List, [], ◌∷◌, ◌++◌, append_assoc, append-nil,
}
use sdk_cp.Base.Bits.{bit_and_mask, bit_and_shifted}
use sdk_cp.Ws.Base64.{base64_char, encode_loop, encode_rest, base64_encode}

-- The characters of three bytes.
abbrev pub group : ℕ → ℕ → ℕ → List ℕ
group a b c =
    base64_char (a / 4)
    ∷ base64_char (a % 4 * 16 + b / 16)
    ∷ base64_char (b % 16 * 4 + c / 64)
    ∷ base64_char (c % 64)
    ∷ []

unfoldable pub encoding : List ℕ → List ℕ
encoding [] = []
encoding (a ∷ []) = base64_char (a / 4) ∷ base64_char (a % 4 * 16) ∷ b'=' ∷ b'=' ∷ []
encoding (a ∷ b ∷ []) =
    base64_char (a / 4) ∷ base64_char (a % 4 * 16 + b / 16) ∷ base64_char (b % 16 * 4) ∷ b'=' ∷ []
encoding (a ∷ b ∷ c ∷ rest) = group a b c ++ encoding rest

masked_high : (k m n : ℕ) → bit_and n ((2 ^ m - 1) * 2 ^ k) ≡ n / 2 ^ k % 2 ^ m * 2 ^ k
masked_high k m n = rw (bit_and_shifted, bit_and_mask)

-- The four sextets.
sextet_one : (a : ℕ) → a < 256 → bit_and a 0xfc >>> 2 ≡ a / 4
sextet_one a h = omega (arith, masked_high 2 6 a)

sextet_two :
    (a b : ℕ) → b < 256 → u8 ((bit_and a 0x03 <<< 4) + (bit_and b 0xf0 >>> 4)) ≡ a % 4 * 16 + b / 16
sextet_two a b h = omega (arith, bit_and_mask 2 a, masked_high 4 4 b)

sextet_three :
    (b c : ℕ) → c < 256 → u8 ((bit_and b 0x0f <<< 2) + (bit_and c 0xc0 >>> 6)) ≡ b % 16 * 4 + c / 64
sextet_three b c h = omega (arith, bit_and_mask 4 b, masked_high 6 2 c)

-- On any bytes, whatever the scratch array of three still holds, `base64_encode` appends to `ret`
-- the encoding of RFC 4648, written here as a recursion on groups of three bytes.
pub encode-encoding :
    (bytes : List ℕ) (x y z : ℕ) (ret : List ℕ)
    → All IsByte bytes
    → base64_encode (x ∷ y ∷ z ∷ []) ret bytes ≡ ret ++ encoding bytes
unfolding base64_encode encode_loop encode_rest encoding
encode-encoding [] x y z ret h = sym (append-nil ret)
encode-encoding (a ∷ []) x y z ret h =
    rw (sextet_one a h.0, sextet_two a 0 (omega arith))
      (ap (closing_one a) {x = a % 4 * 16 + 0 / 16} {y = a % 4 * 16} (omega arith))
  where
    closing_one : ℕ → ℕ → List ℕ
    closing_one a n = ret ++ (base64_char (a / 4) ∷ base64_char n ∷ b'=' ∷ b'=' ∷ [])
encode-encoding (a ∷ b ∷ []) x y z ret h =
    rw (sextet_one a h.0, sextet_two a b h.1.0, sextet_three b 0 (omega arith))
      (ap (closing_two a b) {x = b % 16 * 4 + 0 / 64} {y = b % 16 * 4} (omega arith))
  where
    closing_two : ℕ → ℕ → ℕ → List ℕ
    closing_two a b n =
        ret ++ (base64_char (a / 4) ∷ base64_char (a % 4 * 16 + b / 16) ∷ base64_char n ∷ b'=' ∷ [])
encode-encoding (a ∷ b ∷ c ∷ rest) x y z ret h =
    encode-encoding rest a b c _ h.1.1.1
    ∙ (append_assoc ret _ (encoding rest)
        ∙ rw (sextet_one a h.0, sextet_two a b h.1.0, sextet_three b c h.1.1.0, bit_and_mask 6 c))
