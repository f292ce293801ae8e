-- ===== src/Ws/Bytes.antt =====
-- web_server/ws/tools.h: the conversions between host and network byte order, and the bytes of a
-- host word in memory. The host is little-endian, since the code supports x64 alone.
pub mod Order
use sdk_cp.Base.{ℕ, zero, suc, ◌+◌, ◌*◌, ◌/◌, ◌%◌, ◌^◌, ◌<<<◌, ◌>>>◌, u16, u32, u64}
use sdk_cp.Base.{bit_and, bit_or, List, [], ◌∷◌}

-- The `k` bytes that a host word occupies, and the word that such bytes hold.
abbrev pub le_bytes : ℕ → ℕ → List ℕ
le_bytes zero n = []
le_bytes (suc k) n = (n % 256) ∷ le_bytes k (n / 256)

abbrev pub le_value : List ℕ → ℕ
le_value [] = 0
le_value (b ∷ bs) = b + 256 * le_value bs

unfoldable pub myhtons : ℕ → ℕ
myhtons n = u16 (bit_or (bit_and n 0xff00 >>> 8) (bit_and n 0x00ff <<< 8))

unfoldable pub myntohs : ℕ → ℕ
myntohs n = u16 (bit_or (bit_and n 0xff00 >>> 8) (bit_and n 0x00ff <<< 8))

unfoldable pub myhtonl : ℕ → ℕ
myhtonl n =
    bit_or
      (bit_or (bit_or (bit_and n 0xff000000 >>> 24) (bit_and n 0x00ff0000 >>> 8))
        (u32 (bit_and n 0x0000ff00 <<< 8)))
      (u32 (bit_and n 0x000000ff <<< 24))

unfoldable pub myntohl : ℕ → ℕ
myntohl n =
    bit_or
      (bit_or (bit_or (bit_and n 0xff000000 >>> 24) (bit_and n 0x00ff0000 >>> 8))
        (u32 (bit_and n 0x0000ff00 <<< 8)))
      (u32 (bit_and n 0x000000ff <<< 24))

unfoldable pub myhtonll : ℕ → ℕ
myhtonll n = bit_or (myhtonl (u32 (n >>> 32))) (u64 (myhtonl (u32 n) <<< 32))

unfoldable pub myntohll : ℕ → ℕ
myntohll n = bit_or (myntohl (u32 (n >>> 32))) (u64 (myntohl (u32 n) <<< 32))
