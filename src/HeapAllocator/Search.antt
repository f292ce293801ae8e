-- ===== src/HeapAllocator/Search.antt =====
-- `_getBitScanStreamRevWord` ends, and finds free pages or none.
use sdk_cp.Base.{
  ℕ, zero, suc, ◌+◌, ◌-◌, ◌*◌, ◌^◌, ◌≤◌, ◌<◌, ◌≡◌, ◌⊎◌, inl, inr, min, refl, sym, ap, ◌∙◌, subst,
  arith, bit_and, bit_or, u32, sub32, sub64, add64, Bool, true, lt→ltb, le→ltb, le→leb, lt→leb,
  dec_lt, dec_le, ==_iff, ==_ne, Bool-cases, if◌then◌else◌, Option, some, List, [], ◌∷◌, length,
}
use sdk_cp.Base.Bits.{bit_and-zero}
use sdk_cp.Base.Bits.Digits.{bit, bit-lt_two, bit-bit_and, bit_and-le, drop_run_clears, bit_or-lt}
use native.Mathlib.Nat.{suc-mul, pow-le-pow_right}
use sdk_cp.HeapAllocator.{
  k_h_val, invalid_page_ix, bound_mask, block_mask, drop_run, Scan, has_all, scan_block, scan_next,
  scan_blocks, get_bit_scan_stream,
}
use sdk_cp.HeapAllocator.Pages.{page, page_here, page_there, in_run, bit-bound_mask, bit-block_mask}

-- The `n` pages at `from` are free.
abbrev pub AreFree : ℕ → ℕ → List ℕ → Type 0
AreFree from n blocks = (i : ℕ) → (if in_run from n i then page i blocks else 1) ≡ 1

-- The search ends, with no page, or with the first of `n` free pages within the blocks.
abbrev pub Finds : ℕ → List ℕ → Option ℕ → Type 0
Finds n blocks answer =
    (p : ℕ) × (answer ≡ some p)
    × ((p ≡ invalid_page_ix) ⊎ ((p + n ≤ 64 * length blocks) × AreFree p n blocks))

free_pages :
    (from n : ℕ) (blocks : List ℕ)
    → ((i : ℕ) → from ≤ i → i < from + n → page i blocks ≡ 1)
    → AreFree from n blocks
free_pages from n blocks free i = elim (dec_le from i) [
  | no before ↦ rw (lt→leb from i (omega arith)) refl
  | yes behind ↦ elim (dec_lt i (from + n)) [
    | no past ↦ rw (le→leb from i behind, le→ltb i (from + n) (omega arith)) refl
    | yes inside ↦ rw (le→leb from i behind, lt→ltb i (from + n) inside) (free i behind inside)
  ]
]

free_page :
    (from n : ℕ) (blocks : List ℕ) (i : ℕ)
    → AreFree from n blocks
    → from ≤ i
    → i < from + n
    → page i blocks ≡ 1
free_page from n blocks i free behind inside =
    subst (λ (b : Bool). (if b then page i blocks else 1) ≡ 1) within (free i)
  where
    within : in_run from n i ≡ true
    within = ground arith

drop_run_clear :
    (b j q : ℕ)
    → 0 < b
    → b < 2 ^ 64
    → b ≡ q * 2 ^ j
    → (r : ℕ) × (drop_run b ≡ r * 2 ^ suc j) × (drop_run b < 2 ^ 64)
drop_run_clear b j q some_bit small e = rw (before) (elim (dec_lt (bit_or b (b - 1) + 1) (2 ^ 64)) [
  | yes fits ↦ rw (plain fits) (
      let (r, cleared) = drop_run_clears j b q e in
      (r, cleared, omega (arith, bit_and-le b b (bit_or b (b - 1) + 1) (omega arith))))
  | no over ↦ rw (wraps over, bit_and-zero b) (0, omega arith, omega arith)
])
  where
    before : sub64 b 1 ≡ b - 1
    before = omega arith

    plain : bit_or b (b - 1) + 1 < 2 ^ 64 → add64 (bit_or b (b - 1)) 1 ≡ bit_or b (b - 1) + 1
    plain fits = omega (arith, fits)

    wraps : ¬ (bit_or b (b - 1) + 1 < 2 ^ 64) → add64 (bit_or b (b - 1)) 1 ≡ 0
    wraps over = omega (arith, over, bit_or-lt 64 b (b - 1) small (omega arith))

-- A block that is not 0 has fewer than 64 zeros below its lowest one.
lowest_run : (b j q : ℕ) → 0 < b → b < 2 ^ 64 → b ≡ q * 2 ^ j → j < 64
lowest_run b j zero some_bit small e = absurd (omega arith)
lowest_run b j (suc q) some_bit small e = elim (dec_lt j 64) [
  | yes low ↦ low
  | no high ↦ absurd (
      omega (
        arith,
        suc-mul q (2 ^ j),
        pow-le-pow_right {n = 2} (omega arith) {i = 64} {j = j} (omega (arith, high)),
      ))
]

-- The bits of a mask that a block has all of.
has_all-bit : (k b mask : ℕ) → has_all b mask ≡ true → bit k mask ≡ 1 → bit k b ≡ 1
has_all-bit k b mask all one = omega (
  arith,
  one,
  bit-lt_two k b,
  bit-bit_and k b mask,
  ap (bit k) ((==_iff (bit_and b mask) mask).0 all),
)

-- The blocks are words of 64 bits.
abbrev pub AreWords : List ℕ → Type 0
AreWords [] = Unit
AreWords (block ∷ blocks) = (block < 2 ^ 64) × AreWords blocks

module _ (n : ℕ) (blocks : List ℕ) where
  -- Where the search stands before block `ix`, with `m` pages to find behind page `p`: nowhere, or
  -- at the end of a run of free pages that reaches the block, unless it is long enough.
  abbrev pub Stands : ℕ → ℕ × ℕ → Type 0
  Stands ix (m, p) =
      ((p ≡ invalid_page_ix) × (m ≡ n))
      ⊎ ((c : ℕ) × (c + m ≡ n)
          × AreFree p c blocks
          × (p + c ≤ 64 * ix)
          × ((m ≡ 0) ⊎ (p + c ≡ 64 * ix))
          × (p < invalid_page_ix))

  abbrev pub Scanned : ℕ → Option Scan → Type 0
  Scanned ix answer = (s : Scan) × (answer ≡ some s) × Stands ix s

  -- Block `ix` of the blocks.
  abbrev IsBlock : ℕ → ℕ → Type 0
  IsBlock ix block = (k : ℕ) → k < 64 → page (64 * ix + k) blocks ≡ bit k block

  -- The block without some of its runs.
  abbrev IsPart : ℕ → ℕ → Type 0
  IsPart b block = (k : ℕ) → bit k b ≤ bit k block

  free_bit :
      (ix block b k : ℕ)
      → IsBlock ix block
      → IsPart b block
      → k < 64
      → bit k b ≡ 1
      → page (64 * ix + k) blocks ≡ 1
  free_bit ix block b k is_block part inside one =
      omega (arith, one, is_block k inside, part k, bit-lt_two k block)

  -- A run that starts in the block.
  start-Stands :
      (ix block b position : ℕ)
      → IsBlock ix block
      → IsPart b block
      → position < 64
      → n < 2 ^ 31
      → 64 * suc ix < 2 ^ 32
      → has_all b (block_mask position (position + n)) ≡ true
      → Stands
          (suc ix)
          (sub32 n (sub32 (min (position + n) k_h_val) position), u32 (ix * 2 ^ 6 + position))
  start-Stands ix block b position is_block part start short small all = inr (
    min (position + n) 64 - position,
    omega arith,
    free_pages (u32 (ix * 2 ^ 6 + position)) (min (position + n) 64 - position) blocks free,
    omega arith,
    elim (dec_lt (position + n) 64) [
      | yes within ↦ inl (omega arith)
      | no over ↦ inr (omega arith)
    ],
    omega arith,
  )
    where
      free :
          (i : ℕ)
          → u32 (ix * 2 ^ 6 + position) ≤ i
          → i < u32 (ix * 2 ^ 6 + position) + (min (position + n) 64 - position)
          → page i blocks ≡ 1
      free i low high =
          subst (λ (t : ℕ). page t blocks ≡ 1) (omega arith)
            (free_bit ix block b (i - 64 * ix) is_block part (omega arith) (
              has_all-bit (i - 64 * ix) b (block_mask position (position + n)) all (
                rw
                  (
                    bit-block_mask (i - 64 * ix) position (position + n) (omega arith) start,
                    le→leb position (i - 64 * ix) (omega arith),
                    lt→ltb (i - 64 * ix) (position + n) (omega arith),
                  )
                  refl)))

  -- A run that goes on through the first pages of the block.
  on-Stands :
      (ix block b m p c : ℕ)
      → IsBlock ix block
      → IsPart b block
      → has_all b (bound_mask m) ≡ true
      → c + m ≡ n
      → AreFree p c blocks
      → p + c ≡ 64 * ix
      → p < invalid_page_ix
      → n < 2 ^ 31
      → Stands (suc ix) (sub32 m (min m k_h_val), p)
  on-Stands ix block b m p c is_block part all sum free end valid short = inr (
    c + min m 64,
    omega arith,
    free_pages p (c + min m 64) blocks longer,
    omega arith,
    elim (dec_lt m 64) [ yes within ↦ inl (omega arith) | no over ↦ inr (omega arith) ],
    valid,
  )
    where
      longer : (i : ℕ) → p ≤ i → i < p + (c + min m 64) → page i blocks ≡ 1
      longer i low high = elim (dec_lt i (p + c)) [
        | yes before ↦ free_page p c blocks i free low before
        | no here ↦
            subst (λ (t : ℕ). page t blocks ≡ 1) (omega (arith, here))
              (free_bit ix block b (i - 64 * ix) is_block part (omega (arith, here)) (
                has_all-bit (i - 64 * ix) b (bound_mask m) all (
                  rw
                    (
                      bit-bound_mask (i - 64 * ix) m (omega (arith, here)),
                      lt→ltb (i - 64 * ix) m (omega (arith, here)),
                    )
                    refl)))
      ]

  drop-IsPart : (b block : ℕ) → IsPart b block → IsPart (drop_run b) block
  drop-IsPart b block part k =
      omega (arith, part k, bit-bit_and k b (add64 (bit_or b (sub64 b 1)) 1))

  module _ (ctz : ℕ → ℕ) (ctz_in_word : (b : ℕ) → 0 < b → b < 2 ^ 64 → ctz b < 64)
      (short : n < 2 ^ 31) where
    scan_block-Scanned :
        (fuel ix block b m p j q : ℕ)
        → IsBlock ix block
        → IsPart b block
        → b < 2 ^ 64
        → b ≡ q * 2 ^ j
        → j ≤ 64
        → 65 ≤ fuel + j
        → 64 * suc ix < 2 ^ 32
        → 0 < m
        → Stands ix (m, p)
        → Scanned (suc ix) (scan_block ctz n fuel ix b m p)
    unfolding scan_block block_mask
    scan_block-Scanned zero ix block b m p j q is_block part word zeros room enough small more
          stands =
        absurd (omega arith)
    scan_block-Scanned (suc fuel) ix block b m p j q is_block part word zeros room enough small more
          stands =
        elim (dec_lt 0 b) [
          | no none_left ↦ ((n, invalid_page_ix), rw (empty none_left) refl, inl (refl, refl))
          | yes some_bit ↦ elim stands [
            | inl (nowhere, all) ↦ elim (Bool-cases (has_all b (block_mask (ctz b) (ctz b + n)))) [
              | inl fits ↦
                  rw
                    (
                      ==_ne b 0 (omega arith),
                      nowhere,
                      all,
                      lt→ltb (ctz b) 64 (at some_bit),
                      plain some_bit,
                      fits,
                    )
                    (
                      (sub32 n (sub32 (min (ctz b + n) k_h_val) (ctz b)), u32 (ix * 2 ^ 6 + ctz b)),
                      refl,
                      start-Stands ix block b (ctz b) is_block part (at some_bit) short small fits,
                    )
              | inr gap ↦
                  rw
                    (
                      ==_ne b 0 (omega arith),
                      nowhere,
                      all,
                      lt→ltb (ctz b) 64 (at some_bit),
                      plain some_bit,
                      gap,
                    )
                    (scan_block-Scanned fuel ix block (drop_run b) n invalid_page_ix (suc j)
                      (cleared some_bit).0 is_block (drop-IsPart b block part) (cleared some_bit).2
                      (cleared some_bit).1 (lowest_run b j q some_bit word zeros) (omega arith)
                      small (omega (arith, all)) (inl (refl, refl)))
            ]
            | inr (c, sum, free, low, end, valid) ↦ elim (Bool-cases (has_all b (bound_mask m))) [
              | inl fits ↦
                  rw (==_ne b 0 (omega arith), ==_ne p invalid_page_ix (omega (arith, valid)), fits)
                    (
                      (sub32 m (min m k_h_val), p),
                      refl,
                      on-Stands ix block b m p c is_block part fits sum free (reaches c more end)
                          valid short,
                    )
              | inr gap ↦
                  rw (==_ne b 0 (omega arith), ==_ne p invalid_page_ix (omega (arith, valid)), gap)
                    (scan_block-Scanned fuel ix block (drop_run b) n invalid_page_ix (suc j)
                      (cleared some_bit).0 is_block (drop-IsPart b block part) (cleared some_bit).2
                      (cleared some_bit).1 (lowest_run b j q some_bit word zeros) (omega arith)
                      small (omega (arith, sum)) (inl (refl, refl)))
            ]
          ]
        ]
      where
        empty : ¬ (0 < b) → b ≡ 0
        empty h = omega (arith, h)

        cleared : 0 < b → (r : ℕ) × (drop_run b ≡ r * 2 ^ suc j) × (drop_run b < 2 ^ 64)
        cleared some_bit = drop_run_clear b j q some_bit word zeros

        at : 0 < b → ctz b < 64
        at some_bit = ctz_in_word b some_bit word

        plain : 0 < b → u32 (ctz b + n) ≡ ctz b + n
        plain some_bit = omega (arith, at some_bit)

        reaches : (c : ℕ) → 0 < m → (m ≡ 0) ⊎ (p + c ≡ 64 * ix) → p + c ≡ 64 * ix
        reaches c more (inl done) = absurd (omega arith)
        reaches c more (inr end) = end

    done-Finds :
        (ix m p : ℕ)
        → m ≡ 0
        → 0 < n
        → ix ≤ length blocks
        → Stands ix (m, p)
        → Finds n blocks (some p)
    done-Finds ix m p done asked inside (inl (nowhere, all)) = absurd (omega arith)
    done-Finds ix m p done asked inside (inr (c, sum, free, low, end, valid)) =
        (p, refl, inr (omega arith, subst (λ (t : ℕ). AreFree p t blocks) (omega arith) free))

    -- The blocks from `ix` on are a part of all blocks.
    abbrev IsTail : ℕ → List ℕ → Type 0
    IsTail ix tail = (j : ℕ) → page (64 * ix + j) blocks ≡ page j tail

    scan_blocks-Finds :
        (ix : ℕ) (tail : List ℕ) (m p : ℕ)
        → IsTail ix tail
        → AreWords tail
        → ix + length tail ≡ length blocks
        → 64 * length blocks < 2 ^ 32
        → 0 < n
        → Stands ix (m, p)
        → Finds n blocks (scan_blocks ctz n ix tail m p)
    unfolding scan_blocks
    scan_blocks-Finds ix [] m p is_tail words measure small asked stands = elim (dec_lt 0 m) [
      | yes more ↦ rw (==_ne m 0 (omega arith)) (invalid_page_ix, refl, inl refl)
      | no done ↦ rw (empty done) (done-Finds ix m p (empty done) asked (omega arith) stands)
    ]
      where
        empty : ¬ (0 < m) → m ≡ 0
        empty h = omega (arith, h)
    scan_blocks-Finds ix (block ∷ tail) m p is_tail (word, words) measure small asked stands =
        elim (dec_lt 0 m) [
          | no done ↦ rw (empty done) (done-Finds ix m p (empty done) asked (omega arith) stands)
          | yes more ↦ rw (==_ne m 0 (omega arith)) (
              next (scan_block ctz n 65 ix block m p)
                (scan_block-Scanned 65 ix block block m p 0 block is_block (λ (k : ℕ). omega arith)
                  word (omega arith) (omega arith) (omega arith) (omega arith) more stands)
                (λ (m' p' : ℕ) (s : Stands (suc ix) (m', p')).
                  scan_blocks-Finds (suc ix) tail m' p' behind words (omega arith) small asked s))
        ]
      where
        empty : ¬ (0 < m) → m ≡ 0
        empty h = omega (arith, h)

        is_block : IsBlock ix block
        is_block k inside = is_tail k ∙ page_here k block tail inside

        behind : IsTail (suc ix) tail
        behind j =
            ap (λ (t : ℕ). page t blocks) (omega arith)
            ∙ (is_tail (64 + j) ∙ page_there j block tail)

        next :
            (answer : Option Scan)
            → Scanned (suc ix) answer
            → ((m' p' : ℕ)
                → Stands (suc ix) (m', p')
                → Finds n blocks (scan_blocks ctz n (suc ix) tail m' p'))
            → Finds n blocks
                (scan_next (λ (m' p' : ℕ). scan_blocks ctz n (suc ix) tail m' p') answer)
        next answer ((m', p'), is_some, s) rest =
            subst
              (λ (o : Option Scan).
                Finds n blocks (scan_next (λ (m' p' : ℕ). scan_blocks ctz n (suc ix) tail m' p') o))
              (sym is_some) (rest m' p' s)

    -- `_getBitScanStreamRevWord` ends with no page, or with the first of `n` free pages that lie
    -- within the blocks, for 0 < n < 2 ^ 31 and blocks of 64 bits with fewer than 2 ^ 32 pages. The
    -- builtin that it calls answers a position below 64 for a block that is not 0.
    pub get_bit_scan_stream-Finds :
        0 < n
        → AreWords blocks
        → 64 * length blocks < 2 ^ 32
        → Finds n blocks (get_bit_scan_stream ctz n blocks)
    unfolding get_bit_scan_stream
    get_bit_scan_stream-Finds asked words small =
        scan_blocks-Finds 0 blocks n invalid_page_ix
          (λ (j : ℕ). ap (λ (t : ℕ). page t blocks) (omega arith)) words (omega arith) small asked
          (inl (refl, refl))
