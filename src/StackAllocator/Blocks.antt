-- ===== src/StackAllocator/Blocks.antt =====
-- The blocks that a stack allocator hands out lie one behind the other in its memory.
use sdk_cp.Base.{
  ℕ, zero, suc, ◌+◌, ◌-◌, ◌*◌, ◌/◌, ◌%◌, ◌^◌, ◌≤◌, ◌<◌, ◌≡◌, refl, sym, ap, ◌∙◌, subst, arith,
  bit_and, add64, lt→ltb, le→ltb, dec_lt, Option, none, some, List, [], ◌∷◌,
}
use sdk_cp.Base.Bits.{bit_and_mask, bit_and_shifted}
use native.Mathlib.Nat.{
  pow-suc, one-le-pow, pow-le-pow_right, suc-mul, mod-eq_of_lt, div-lt_iff_lt-mul, lt-div-mul-add,
  div-mul-le_self, mul-mod_left,
}
use sdk_cp.StackAllocator.{StackAllocator, align_mem, place, stack_allocate}

-- The next multiple of a power of 2.
abbrev pub next_multiple : ℕ → ℕ → ℕ
next_multiple x a = (x + 2 ^ a - 1) / 2 ^ a * 2 ^ a

pow_sum : (a b : ℕ) → 2 ^ (a + b) ≡ 2 ^ a * 2 ^ b
pow_sum a zero = ap (λ k. 2 ^ k) same ∙ omega arith
  where
    same : a + 0 ≡ a
    same = omega arith
pow_sum a (suc b) =
    ap (λ k. 2 ^ k) more
    ∙ omega (arith, pow-suc 2 (a + b), pow_sum a b, ap (λ t. 2 ^ a * t) (pow-suc 2 b))
  where
    more : a + suc b ≡ suc (a + b)
    more = omega arith

-- 2 ^ 64 as a multiple of a smaller power, and the mask as a shifted one.
word_split : (a : ℕ) → a ≤ 16 → 2 ^ (64 - a) * 2 ^ a ≡ 2 ^ 64
word_split a h = sym (pow_sum (64 - a) a) ∙ ap (λ k. 2 ^ k) whole
  where
    whole : 64 - a + a ≡ 64
    whole = omega arith

mask_shifted : (a : ℕ) → a ≤ 16 → 2 ^ 64 - 1 - (2 ^ a - 1) ≡ (2 ^ (64 - a) - 1) * 2 ^ a
mask_shifted a h = omega (
  arith,
  word_split a h,
  suc-mul (2 ^ (64 - a) - 1) (2 ^ a),
  ap (λ t. t * 2 ^ a) back,
  one-le-pow a 2 (omega arith),
)
  where
    back : suc (2 ^ (64 - a) - 1) ≡ 2 ^ (64 - a)
    back = omega (arith, one-le-pow (64 - a) 2 (omega arith))

align_mem-next_multiple : (x a : ℕ) → a ≤ 16 → x < 2 ^ 63 → align_mem x (2 ^ a) ≡ next_multiple x a
unfolding align_mem
align_mem-next_multiple x a h small =
    ap (bit_and (add64 x (2 ^ a - 1))) (mask_shifted a h)
    ∙ bit_and_shifted a (add64 x (2 ^ a - 1)) (2 ^ (64 - a) - 1)
    ∙ ap (λ t. t * 2 ^ a)
        (bit_and_mask (64 - a) (add64 x (2 ^ a - 1) / 2 ^ a)
          ∙ mod-eq_of_lt fits
          ∙ ap (λ t. t / 2 ^ a) exact)
  where
    low : 2 ^ a ≤ 2 ^ 16
    low = pow-le-pow_right (omega arith) h

    one_low : 1 ≤ 2 ^ a
    one_low = one-le-pow a 2 (omega arith)

    exact : add64 x (2 ^ a - 1) ≡ x + 2 ^ a - 1
    exact = omega (arith, low, one_low)

    fits : add64 x (2 ^ a - 1) / 2 ^ a < 2 ^ (64 - a)
    fits = (div-lt_iff_lt-mul {k = 2 ^ a} one_low).1 (omega (arith, word_split a h, low, one_low))

-- It is a multiple, not below, and less than one step above.
pub next_multiple_bounds : (x a : ℕ) → (x ≤ next_multiple x a) × (next_multiple x a < x + 2 ^ a)
next_multiple_bounds x a = (
  omega (
    arith,
    one-le-pow a 2 (omega arith),
    lt-div-mul-add {a = x + 2 ^ a - 1} {b = 2 ^ a} (one-le-pow a 2 (omega arith)),
  ),
  omega (arith, one-le-pow a 2 (omega arith), div-mul-le_self (x + 2 ^ a - 1) (2 ^ a)),
)

-- A request: the logarithm of the alignment, and the size.
abbrev pub Request : Type 0
Request = ℕ × ℕ

-- The requests one after another, and the blocks that they get: a request that is refused gets
-- none, and the next ones go on.
abbrev pub placed : Request → Option ℕ → List (ℕ × Request) → List (ℕ × Request)
placed r none blocks = blocks
placed r (some ptr) blocks = (ptr, r) ∷ blocks

abbrev pub run : List Request → StackAllocator → List (ℕ × Request) × StackAllocator
run [] s = ([], s)
run ((a, n) ∷ rs) s =
    let (o, s') = stack_allocate (2 ^ a) n s in (placed (a, n) o (run rs s').0, (run rs s').1)

-- The alignment fits a `uint16_t`, and the size does not reach past the address space.
abbrev pub IsRequest : Request → Type 0
IsRequest (a, n) = (a ≤ 15) × (n < 2 ^ 63)

abbrev pub AreRequests : List Request → Type 0
AreRequests [] = Unit {0}
AreRequests (r ∷ rs) = IsRequest r × AreRequests rs

-- Blocks one behind the other between two addresses, each at a multiple of its alignment.
abbrev pub ArePacked : ℕ → List (ℕ × Request) → ℕ → Type 0
ArePacked low [] high = low ≤ high
ArePacked low ((ptr, (a, n)) ∷ blocks) high =
    (low ≤ ptr) × (ptr % 2 ^ a ≡ 0) × ArePacked (ptr + n) blocks high

-- The pointers of an allocator in the lower half of the address space, in their order.
abbrev pub IsStack : StackAllocator → Type 0
IsStack s = (s.mem_ptr ≤ s.cur_ptr) × (s.cur_ptr ≤ s.end_ptr) × (s.end_ptr < 2 ^ 63 - 2 ^ 16)

ArePacked-lower :
    (low low' high : ℕ) (blocks : List (ℕ × Request))
    → low ≤ low'
    → ArePacked low' blocks high
    → ArePacked low blocks high
ArePacked-lower low low' high [] h packed = omega (arith, packed)
ArePacked-lower low low' high ((ptr, (a, n)) ∷ blocks) h (above, aligned, rest) =
    (omega arith, aligned, rest)

-- What one call promises: nothing, without a change, or a block behind the ones before.
abbrev Places : Request → StackAllocator → Option ℕ × StackAllocator → Type 0
Places (a, n) s (none, s') = s' ≡ s
Places (a, n) s (some ptr, s') =
    (s.cur_ptr ≤ ptr)
    × (ptr % 2 ^ a ≡ 0)
    × (s'.cur_ptr ≡ ptr + n)
    × (s'.mem_ptr ≡ s.mem_ptr)
    × (s'.end_ptr ≡ s.end_ptr)
    × (ptr + n ≤ s.end_ptr)

place-Places :
    (a n ptr : ℕ) (s : StackAllocator)
    → s.cur_ptr ≤ ptr
    → ptr % 2 ^ a ≡ 0
    → ptr + n < 2 ^ 64
    → Places (a, n) s (place ptr n s)
place-Places a n ptr s above aligned fits = elim (dec_lt s.end_ptr (add64 ptr n)) [
  | yes over ↦ rw (lt→ltb s.end_ptr (add64 ptr n) over)
  | no under ↦
      rw (le→ltb s.end_ptr (add64 ptr n) (omega arith))
        (above, aligned, omega arith, refl, refl, omega arith)
]

stack_allocate-Places :
    (a n : ℕ) (s : StackAllocator)
    → IsRequest (a, n)
    → IsStack s
    → Places (a, n) s (stack_allocate (2 ^ a) n s)
unfolding stack_allocate
stack_allocate-Places a n s (small, size) (begun, within, high) =
    subst (λ p. Places (a, n) s (place p n s))
      (sym (align_mem-next_multiple s.cur_ptr a (omega arith) (omega arith)))
      (place-Places a n (next_multiple s.cur_ptr a) s (next_multiple_bounds s.cur_ptr a).0
        (mul-mod_left ((s.cur_ptr + 2 ^ a - 1) / 2 ^ a) (2 ^ a))
        (omega (arith, (next_multiple_bounds s.cur_ptr a).1, low)))
  where
    low : 2 ^ a ≤ 2 ^ 15
    low = pow-le-pow_right (omega arith) small

run_after :
    (a n : ℕ) (rs : List Request) (s : StackAllocator) (r : Option ℕ × StackAllocator)
    → Places (a, n) s r
    → ArePacked r.1.cur_ptr (run rs r.1).0 (run rs r.1).1.cur_ptr
    → ArePacked s.cur_ptr (placed (a, n) r.0 (run rs r.1).0) (run rs r.1).1.cur_ptr
run_after a n rs s (none, s') same packed =
    subst (λ t. ArePacked t.cur_ptr (run rs s').0 (run rs s').1.cur_ptr) same packed
run_after a n rs s (some ptr, s') (above, aligned, next, mem, last, fits) packed =
    (above, aligned, subst (λ t. ArePacked t (run rs s').0 (run rs s').1.cur_ptr) next packed)

IsStack-after :
    (a n : ℕ) (s : StackAllocator) (r : Option ℕ × StackAllocator)
    → IsStack s
    → Places (a, n) s r
    → IsStack r.1
IsStack-after a n s (none, s') stack same = subst IsStack (sym same) stack
IsStack-after a n s (some ptr, s') (begun, within, high) (above, aligned, next, mem, last, fits) =
    (omega (arith, mem, next, above), omega (arith, next, last, fits), omega (arith, last))

-- The blocks of any requests, each aligned to a power of 2 that fits 16 bits, lie at multiples of
-- their alignments, one behind the other from the old end of the stack to the new one, which stays
-- within the memory: no two of them overlap. The sizes are below 2 ^ 63, and the memory lies in
-- the lower half of the address space.
pub run-ArePacked :
    (rs : List Request) (s : StackAllocator)
    → AreRequests rs
    → IsStack s
    → ArePacked s.cur_ptr (run rs s).0 (run rs s).1.cur_ptr × IsStack (run rs s).1
run-ArePacked [] s h stack = (omega arith, stack)
run-ArePacked ((a, n) ∷ rs) s (h, hs) stack =
    let step = stack_allocate-Places a n s h stack in
    let after = stack_allocate (2 ^ a) n s in
    let (packed, stays) = run-ArePacked rs after.1 hs (IsStack-after a n s after stack step) in
    (run_after a n rs s after step packed, stays)
