-- ===== src/Hash.antt =====
-- tools/hash.hpp: the FNV-1a hashes, and the text of an MD5 digest. MD5 itself is a parameter.
pub mod Fnv
mod Tests
use sdk_cp.Base.{
  ℕ, ◌+◌, ◌-◌, ◌*◌, ◌/◌, ◌%◌, ◌^◌, u32, u64, bit_xor, if◌then◌else◌, ltb, List, [], ◌∷◌, ◌++◌,
}

-- One round of each loop.
abbrev pub fnv1a_step : ℕ → ℕ → ℕ
fnv1a_step result b = u64 (bit_xor result b * 1099511628211)

abbrev pub fnv1a_step_32 : ℕ → ℕ → ℕ
fnv1a_step_32 result b = u32 (bit_xor result b * 16777619)

-- The loops, from a `result` on.
unfoldable pub fnv1a_loop : ℕ → List ℕ → ℕ
fnv1a_loop result [] = result
fnv1a_loop result (b ∷ bs) = fnv1a_loop (fnv1a_step result b) bs

unfoldable pub fnv1a_loop_32 : ℕ → List ℕ → ℕ
fnv1a_loop_32 result [] = result
fnv1a_loop_32 result (b ∷ bs) = fnv1a_loop_32 (fnv1a_step_32 result b) bs

unfoldable pub fnv1a_hash_bytes : List ℕ → ℕ
fnv1a_hash_bytes bytes = fnv1a_loop 14695981039346656037 bytes

unfoldable pub fnv1a_hash_bytes_32 : List ℕ → ℕ
fnv1a_hash_bytes_32 bytes = fnv1a_loop_32 2166136261 bytes

-- `sprintf("%02x")` of a byte.
abbrev pub hex_digit : ℕ → ℕ
hex_digit n = if ltb n 10 then b'0' + n else b'a' + (n - 10)

abbrev pub hex : List ℕ → List ℕ
hex [] = []
hex (b ∷ bs) = hex_digit (b / 16) ∷ hex_digit (b % 16) ∷ hex bs

-- `md5(src, size, out)`: the text with the NUL that the last `sprintf` writes.
unfoldable pub md5 : (List ℕ → List ℕ) → List ℕ → List ℕ
md5 digest src = hex (digest src) ++ (0 ∷ [])
