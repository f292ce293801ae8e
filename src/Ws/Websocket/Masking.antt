-- ===== src/Ws/Websocket/Masking.antt =====
-- Masking of RFC 6455 (5.3): byte `i` of the payload goes with byte `i % 4` of the key.
use sdk_cp.Base.{
  ℕ, suc, ◌+◌, ◌-◌, ◌%◌, ◌^◌, ◌≤◌, ◌<◌, ◌≡◌, refl, arith, ap, ap₂, bit_xor, none, some, List, [],
  ◌∷◌, ==_ne, length, get_elem?, get_or, get_elem?-eq-get_or,
}
use sdk_cp.Base.Bits.{bit_xor_cancel}
use sdk_cp.Ws.Websocket.{unmask_loop, unmask_bytes_loop}

-- The payload under a key, from index `i` on.
abbrev pub masked : List ℕ → ℕ → List ℕ → List ℕ
masked key i [] = []
masked key i (b ∷ bs) = bit_xor b (get_or key (i % 4) 0) ∷ masked key (i + 1) bs

-- Masking twice gives the payload back.
pub masked_twice : (key : List ℕ) (i : ℕ) (bs : List ℕ) → masked key i (masked key i bs) ≡ bs
masked_twice key i [] = refl
masked_twice key i (b ∷ bs) =
    ap₂ ◌∷◌ (bit_xor_cancel b (get_or key (i % 4) 0)) (masked_twice key (i + 1) bs)

pub length-masked : (key : List ℕ) (i : ℕ) (bs : List ℕ) → length (masked key i bs) ≡ length bs
length-masked key i [] = refl
length-masked key i (b ∷ bs) = ap suc (length-masked key (i + 1) bs)

key_byte :
    (key : List ℕ) (i : ℕ) → length key ≡ 4 → get_elem? key (i % 4) ≡ some (get_or key (i % 4) 0)
key_byte key i h = get_elem?-eq-get_or key (i % 4) 0 (omega arith)

-- With a key of four bytes, from an index that stays below 2 ^ 31 to the payload's end, the loop of
-- `unmask_payload_data` runs to that end and has changed each byte by the key byte that RFC 6455
-- assigns to its index.
pub unmask_loop-masked :
    (key : List ℕ) (i : ℕ) (bs : List ℕ)
    → length key ≡ 4
    → i + length bs < 2 ^ 31
    → unmask_loop key i bs ≡ some (masked key i bs)
unfolding unmask_loop
unmask_loop-masked key i [] hk h = refl
unmask_loop-masked key i (b ∷ bs) hk h = rw (
  key_byte key i hk,
  ==_ne i (2 ^ 31 - 1) (omega arith),
  unmask_loop-masked key (i + 1) bs hk (omega arith),
)

-- From an index below 2 ^ 31, a payload that reaches to 2 ^ 31 or past it takes the signed index out
-- of its range, which is undefined behaviour, whatever the key and the bytes.
pub unmask_loop_overflows :
    (key : List ℕ) (i : ℕ) (bs : List ℕ)
    → i < 2 ^ 31
    → 2 ^ 31 ≤ i + length bs
    → unmask_loop key i bs ≡ none
unfolding unmask_loop
unmask_loop_overflows key i [] hi h = absurd (omega arith)
unmask_loop_overflows key i (b ∷ bs) hi h = ground (arith, unmask_loop_overflows key (i + 1) bs)

pub unmask_bytes_loop-masked :
    (key : List ℕ) (i : ℕ) (bs : List ℕ)
    → length key ≡ 4
    → unmask_bytes_loop key i bs ≡ some (masked key i bs)
unfolding unmask_bytes_loop
unmask_bytes_loop-masked key i [] hk = refl
unmask_bytes_loop-masked key i (b ∷ bs) hk =
    rw (key_byte key i hk, unmask_bytes_loop-masked key (i + 1) bs hk)
