-- ===== src/Hash/Tests.antt =====
-- Test vectors of FNV-1a and of the digest's text, and the theorems on the hashes at a string.
use sdk_cp.Base.{◌≡◌, ◌≢◌, refl, arith, [], ◌∷◌}
use sdk_cp.Hash.{fnv1a_hash_bytes, fnv1a_hash_bytes_32, fnv1a_loop, fnv1a_loop_32, md5}
use sdk_cp.Hash.Fnv.{fnv1a_hash_bytes_change}

fnv1a_hash_bytes_a : fnv1a_hash_bytes (b'a' ∷ []) ≡ 0xaf63dc4c8601ec8c
unfolding fnv1a_hash_bytes fnv1a_loop
fnv1a_hash_bytes_a = refl

fnv1a_hash_bytes_32_a : fnv1a_hash_bytes_32 (b'a' ∷ []) ≡ 0xe40c292c
unfolding fnv1a_hash_bytes_32 fnv1a_loop_32
fnv1a_hash_bytes_32_a = refl

md5_text : md5 (λ src. 0xd4 ∷ 0x1d ∷ []) [] ≡ b'd' ∷ b'4' ∷ b'1' ∷ b'd' ∷ 0 ∷ []
unfolding md5
md5_text = refl

fnv1a_hash_bytes_change_example :
    fnv1a_hash_bytes (b'a' ∷ b'b' ∷ b'c' ∷ []) ≢ fnv1a_hash_bytes (b'a' ∷ b'x' ∷ b'c' ∷ [])
fnv1a_hash_bytes_change_example =
    fnv1a_hash_bytes_change (b'a' ∷ []) (b'c' ∷ []) b'b' b'x' (omega arith, tt) (omega arith)
      (omega arith) (λ e. omega arith)
