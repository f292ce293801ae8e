-- ===== src/Hash/Fnv.antt =====
-- The FNV-1a loops lose nothing: a round is injective in the state and in the byte.
use sdk_cp.Base.{
  ℕ, ◌*◌, ◌^◌, ◌<◌, ◌≡◌, ◌≢◌, arith, ap, sym, ◌∙◌, u32, u64, bit_xor, IsByte, All, List, [], ◌∷◌,
  ◌++◌,
}
use sdk_cp.Base.Bits.{bit_xor-lt, bit_xor_left_injective, bit_xor_right_injective}
use sdk_cp.Hash.{
  fnv1a_step, fnv1a_step_32, fnv1a_loop, fnv1a_loop_32, fnv1a_hash_bytes, fnv1a_hash_bytes_32,
}

-- The primes have inverses at their widths.
unprime : (x : ℕ) → x < 2 ^ 64 → u64 (u64 (x * 1099511628211) * 14886173955864302971) ≡ x
unprime x h = omega arith

unprime_32 : (x : ℕ) → x < 2 ^ 32 → u32 (u32 (x * 16777619) * 899433627) ≡ x
unprime_32 x h = omega arith

u64-lt : (x : ℕ) → u64 x < 2 ^ 64
u64-lt x = omega arith

u32-lt : (x : ℕ) → u32 x < 2 ^ 32
u32-lt x = omega arith

-- A round can be undone up to its exclusive or.
xor_of_step :
    (r s a b : ℕ)
    → r < 2 ^ 64
    → s < 2 ^ 64
    → IsByte a
    → IsByte b
    → fnv1a_step r a ≡ fnv1a_step s b
    → bit_xor r a ≡ bit_xor s b
xor_of_step r s a b hr hs ha hb e =
    sym (unprime (bit_xor r a) (bit_xor-lt 64 r a hr (omega arith)))
    ∙ ap (λ t. u64 (t * 14886173955864302971)) e
    ∙ unprime (bit_xor s b) (bit_xor-lt 64 s b hs (omega arith))

xor_of_step_32 :
    (r s a b : ℕ)
    → r < 2 ^ 32
    → s < 2 ^ 32
    → IsByte a
    → IsByte b
    → fnv1a_step_32 r a ≡ fnv1a_step_32 s b
    → bit_xor r a ≡ bit_xor s b
xor_of_step_32 r s a b hr hs ha hb e =
    sym (unprime_32 (bit_xor r a) (bit_xor-lt 32 r a hr (omega arith)))
    ∙ ap (λ t. u32 (t * 899433627)) e
    ∙ unprime_32 (bit_xor s b) (bit_xor-lt 32 s b hs (omega arith))

-- The same bytes take different states to different hashes.
fnv1a_loop_injective :
    (v : List ℕ) (r s : ℕ)
    → r < 2 ^ 64
    → s < 2 ^ 64
    → All IsByte v
    → fnv1a_loop r v ≡ fnv1a_loop s v
    → r ≡ s
unfolding fnv1a_loop
fnv1a_loop_injective [] r s hr hs hv e = e
fnv1a_loop_injective (b ∷ v) r s hr hs (hb, hv) e = bit_xor_right_injective b r s (
    xor_of_step r s b b hr hs hb hb (
      fnv1a_loop_injective v (fnv1a_step r b) (fnv1a_step s b)
        (u64-lt (bit_xor r b * 1099511628211)) (u64-lt (bit_xor s b * 1099511628211)) hv e))

fnv1a_loop_32_injective :
    (v : List ℕ) (r s : ℕ)
    → r < 2 ^ 32
    → s < 2 ^ 32
    → All IsByte v
    → fnv1a_loop_32 r v ≡ fnv1a_loop_32 s v
    → r ≡ s
unfolding fnv1a_loop_32
fnv1a_loop_32_injective [] r s hr hs hv e = e
fnv1a_loop_32_injective (b ∷ v) r s hr hs (hb, hv) e = bit_xor_right_injective b r s (
    xor_of_step_32 r s b b hr hs hb hb (
      fnv1a_loop_32_injective v (fnv1a_step_32 r b) (fnv1a_step_32 s b)
        (u32-lt (bit_xor r b * 16777619)) (u32-lt (bit_xor s b * 16777619)) hv e))

-- One byte changed, from a state on.
fnv1a_loop_change :
    (u v : List ℕ) (r a b : ℕ)
    → r < 2 ^ 64
    → All IsByte v
    → IsByte a
    → IsByte b
    → fnv1a_loop r (u ++ (a ∷ v)) ≡ fnv1a_loop r (u ++ (b ∷ v))
    → a ≡ b
unfolding fnv1a_loop
fnv1a_loop_change [] v r a b hr hv ha hb e = bit_xor_left_injective r a b (
    xor_of_step r r a b hr hr ha hb (
      fnv1a_loop_injective v (fnv1a_step r a) (fnv1a_step r b)
        (u64-lt (bit_xor r a * 1099511628211)) (u64-lt (bit_xor r b * 1099511628211)) hv e))
fnv1a_loop_change (c ∷ u) v r a b hr hv ha hb e =
    fnv1a_loop_change u v (fnv1a_step r c) a b (u64-lt (bit_xor r c * 1099511628211)) hv ha hb e

fnv1a_loop_32_change :
    (u v : List ℕ) (r a b : ℕ)
    → r < 2 ^ 32
    → All IsByte v
    → IsByte a
    → IsByte b
    → fnv1a_loop_32 r (u ++ (a ∷ v)) ≡ fnv1a_loop_32 r (u ++ (b ∷ v))
    → a ≡ b
unfolding fnv1a_loop_32
fnv1a_loop_32_change [] v r a b hr hv ha hb e = bit_xor_left_injective r a b (
    xor_of_step_32 r r a b hr hr ha hb (
      fnv1a_loop_32_injective v (fnv1a_step_32 r a) (fnv1a_step_32 r b)
        (u32-lt (bit_xor r a * 16777619)) (u32-lt (bit_xor r b * 16777619)) hv e))
fnv1a_loop_32_change (c ∷ u) v r a b hr hv ha hb e =
    fnv1a_loop_32_change u v (fnv1a_step_32 r c) a b (u32-lt (bit_xor r c * 16777619)) hv ha hb e

pub fnv1a_hash_bytes_byte :
    (u v : List ℕ) (a b : ℕ)
    → All IsByte v
    → IsByte a
    → IsByte b
    → fnv1a_hash_bytes (u ++ (a ∷ v)) ≡ fnv1a_hash_bytes (u ++ (b ∷ v))
    → a ≡ b
unfolding fnv1a_hash_bytes
fnv1a_hash_bytes_byte u v a b hv ha hb e =
    fnv1a_loop_change u v 14695981039346656037 a b (omega arith) hv ha hb e

-- `fnv1a_hash_bytes` detects every change of a single byte: it differs on two byte strings that
-- differ in one byte.
pub fnv1a_hash_bytes_change :
    (u v : List ℕ) (a b : ℕ)
    → All IsByte v
    → IsByte a
    → IsByte b
    → a ≢ b
    → fnv1a_hash_bytes (u ++ (a ∷ v)) ≢ fnv1a_hash_bytes (u ++ (b ∷ v))
fnv1a_hash_bytes_change u v a b hv ha hb ne e = ne (fnv1a_hash_bytes_byte u v a b hv ha hb e)

-- `fnv1a_hash_bytes_32` differs on two byte strings that differ in one byte.
pub fnv1a_hash_bytes_32_change :
    (u v : List ℕ) (a b : ℕ)
    → All IsByte v
    → IsByte a
    → IsByte b
    → a ≢ b
    → fnv1a_hash_bytes_32 (u ++ (a ∷ v)) ≢ fnv1a_hash_bytes_32 (u ++ (b ∷ v))
unfolding fnv1a_hash_bytes_32
fnv1a_hash_bytes_32_change u v a b hv ha hb ne e =
    ne (fnv1a_loop_32_change u v 2166136261 a b (omega arith) hv ha hb e)

loop-lt : (r : ℕ) (v : List ℕ) → r < 2 ^ 64 → fnv1a_loop r v < 2 ^ 64
unfolding fnv1a_loop
loop-lt r [] h = h
loop-lt r (b ∷ v) h = loop-lt (fnv1a_step r b) v (u64-lt (bit_xor r b * 1099511628211))

pub fnv1a_hash_bytes-lt : (v : List ℕ) → fnv1a_hash_bytes v < 2 ^ 64
unfolding fnv1a_hash_bytes
fnv1a_hash_bytes-lt v = loop-lt 14695981039346656037 v (omega arith)
