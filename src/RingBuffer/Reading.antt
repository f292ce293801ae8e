-- ===== src/RingBuffer/Reading.antt =====
-- `peek` and `free` find the first block that is committed, and wait for none that they need not.
use sdk_cp.Base.{
  ℕ, zero, suc, ◌+◌, ◌%◌, ◌^◌, ◌≤◌, ◌<◌, ◌≡◌, ◌≢◌, refl, sym, ap, subst, arith, List, [], ◌∷◌,
  length, ==_ne, ==_refl, Option, some,
}
use sdk_cp.Base.Memory.{Memory, load}
use sdk_cp.Ws.Bytes.{le_bytes, le_value}
use Prim.Native.Nat.{◌∣◌}
use native.Mathlib.Nat.{one-le-pow, pow-le-pow_right}
use sdk_cp.RingBuffer.{
  RingBuffer, First, block_at, passed, still_busy, Look, found, nothing, blocked, get_first_block,
  advance_to, peek_loop, peek, free_loop, free,
}
use sdk_cp.RingBuffer.Places.{overhead-eq, slot-mod}
use sdk_cp.RingBuffer.Entries.{
  pending, ready, dropped, Entry, filler, block, IsShape, extent, IsAt, Holds, IsRing, IsAt-fits,
  Holds-le,
}

le_value-le_bytes_four : (n : ℕ) → n < 2 ^ 32 → le_value (le_bytes 4 n) ≡ n
le_value-le_bytes_four n h = omega arith

module _ (k a : ℕ) where
  -- What `_get_first_block` answers for an entry.
  abbrev answer : ℕ → Entry → First × ℕ
  answer x (filler n) = (passed, x + n)
  answer x (block pending bytes) = (still_busy, x)
  answer x (block ready bytes) =
      (block_at (x % 2 ^ k + 2 ^ a) (length bytes), x + (2 ^ a + length bytes))
  answer x (block dropped bytes) = (passed, x + (2 ^ a + length bytes))

  top : IsShape k a → 2 ^ k ≤ 2 ^ 31
  top (low, high, ratio, small) = pow-le-pow_right (omega arith) small

  get_first_block-answer :
      (r : RingBuffer) (x : ℕ) (e : Entry)
      → IsShape k a
      → x < 2 ^ 62
      → IsAt k a r.mem x e
      → get_first_block k a x r ≡ answer x e
  unfolding get_first_block
  get_first_block-answer r x (filler n) shape early (size, state, exact, wide) =
      rw
        (
          slot-mod k a x,
          ap le_value state,
          ap le_value size,
          le_value-le_bytes_four n (omega (arith, top shape)),
        )
        (ap (λ t. (passed, t)) (omega (arith, top shape)))
  get_first_block-answer r x (block pending bytes) shape early (size, state, content, fits) =
      rw (slot-mod k a x, ap le_value state)
  get_first_block-answer r x (block ready bytes) shape early (size, state, content, fits) =
      rw
        (
          slot-mod k a x,
          ap le_value state,
          ap le_value size,
          le_value-le_bytes_four (length bytes) (omega (arith, top shape)),
          overhead-eq k a shape.0 shape.1,
        )
        (ap (λ t. (block_at (x % 2 ^ k + 2 ^ a) (length bytes), t)) (omega (arith, top shape)))
  get_first_block-answer r x (block dropped bytes) shape early (size, state, content, fits) =
      rw
        (
          slot-mod k a x,
          ap le_value state,
          ap le_value size,
          le_value-le_bytes_four (length bytes) (omega (arith, top shape)),
          overhead-eq k a shape.0 shape.1,
        )
        (ap (λ t. (passed, t)) (omega (arith, top shape)))

  -- An index before the write index is another word.
  unread :
      (r : RingBuffer) (x : ℕ) (e : Entry) (es : List Entry)
      → IsShape k a
      → Holds k a r.mem x (e ∷ es) r.ix_write
      → r.ix_write ≢ x
  unread r x e es shape (at, rest) same = omega (
    arith,
    Holds-le k a r.mem (x + extent k a e) es r.ix_write rest,
    (IsAt-fits k a r.mem x e at).1,
    one-le-pow a 2 (omega arith),
    same,
  )

  before :
      (r : RingBuffer) (x : ℕ) (e : Entry) (es : List Entry)
      → Holds k a r.mem x (e ∷ es) r.ix_write
      → r.ix_write < 2 ^ 62
      → x < 2 ^ 62
  before r x e es holds early = omega (arith, Holds-le k a r.mem x (e ∷ es) r.ix_write holds)

  length-Holds :
      (mem : Memory) (x : ℕ) (es : List Entry) (y : ℕ) → Holds k a mem x es y → x + length es ≤ y
  length-Holds mem x [] y h = omega (arith, h)
  length-Holds mem x (e ∷ es) y (at, h) = omega (
    arith,
    length-Holds mem (x + extent k a e) es y h,
    (IsAt-fits k a mem x e at).1,
    one-le-pow a 2 (omega arith),
  )

  -- What `peek` has to answer for some entries: the bytes of the first committed block, unless a
  -- block before it is pending; without either, null, and then every entry is given up.
  abbrev pub Peeks : List Entry → RingBuffer → Option (Look × RingBuffer) → Type 0
  Peeks [] r o = (r' : RingBuffer) × (o ≡ some (nothing, r')) × IsRing k a r' []
  Peeks (filler n ∷ es) r o = Peeks es r o
  Peeks (block dropped bytes ∷ es) r o = Peeks es r o
  Peeks (block pending bytes ∷ es) r o = o ≡ some (blocked, r)
  Peeks (block ready bytes ∷ es) r o =
      (ptr : ℕ) × (o ≡ some (found ptr (length bytes), r))
      × (load (length bytes) ptr r.mem ≡ bytes)
      × (ptr + length bytes ≤ 2 ^ k)

  peek_loop-Peeks :
      (n x : ℕ) (es : List Entry) (r : RingBuffer)
      → IsShape k a
      → Holds k a r.mem x es r.ix_write
      → r.ix_read ≤ x
      → r.ix_write < 2 ^ 62
      → 2 ^ a ∣ r.ix_write
      → length es < n
      → Peeks es r (peek_loop k a n x r)
  unfolding peek_loop
  peek_loop-Peeks zero x es r shape holds begun early aligned fuel = absurd (omega arith)
  peek_loop-Peeks (suc n) x [] r shape holds begun early aligned fuel =
      rw (holds, ==_refl r.ix_write)
        (advance_to r.ix_write r, refl, (level, omega (arith, level), aligned))
    where
      level : (advance_to r.ix_write r).ix_read ≡ r.ix_write
      level = omega (arith, holds)
  peek_loop-Peeks (suc n) x (filler m ∷ es) r shape holds begun early aligned fuel =
      rw
        (
          ==_ne r.ix_write x (unread r x (filler m) es shape holds),
          get_first_block-answer r x (filler m) shape (before r x (filler m) es holds early)
              holds.0,
        )
        (peek_loop-Peeks n (x + m) es r shape holds.1 (omega arith) early aligned (omega arith))
  peek_loop-Peeks (suc n) x (block pending bytes ∷ es) r shape holds begun early aligned fuel = rw (
    ==_ne r.ix_write x (unread r x (block pending bytes) es shape holds),
    get_first_block-answer r x (block pending bytes) shape
        (before r x (block pending bytes) es holds early) holds.0,
  )
  peek_loop-Peeks (suc n) x (block ready bytes ∷ es) r shape holds begun early aligned fuel =
      rw
        (
          ==_ne r.ix_write x (unread r x (block ready bytes) es shape holds),
          get_first_block-answer r x (block ready bytes) shape
              (before r x (block ready bytes) es holds early) holds.0,
        )
        (x % 2 ^ k + 2 ^ a, refl, holds.0.2, omega (arith, holds.0.3))
  peek_loop-Peeks (suc n) x (block dropped bytes ∷ es) r shape holds begun early aligned fuel =
      rw
        (
          ==_ne r.ix_write x (unread r x (block dropped bytes) es shape holds),
          get_first_block-answer r x (block dropped bytes) shape
              (before r x (block dropped bytes) es holds early) holds.0,
        )
        (peek_loop-Peeks n (x + (2 ^ a + length bytes)) es r shape holds.1 (omega arith) early
          aligned (omega arith))

  -- `peek` on a sound ring comes to an end, with what its entries ask for: the bytes of the first
  -- committed block, where no block before it is pending; a wait for a pending block before it; or
  -- null and an empty ring. Blocks that were skipped and fake ones are passed over.
  pub peek-Peeks :
      (es : List Entry) (r : RingBuffer)
      → IsShape k a
      → IsRing k a r es
      → r.ix_write < 2 ^ 62
      → Peeks es r (peek k a r)
  unfolding peek
  peek-Peeks es r shape (holds, turn, aligned) early =
      peek_loop-Peeks (suc (2 ^ k)) r.ix_read es r shape holds (omega arith) early aligned
        (omega (arith, length-Holds r.mem r.ix_read es r.ix_write holds))

  -- What `free` has to answer: it gives up the entries to the end of the first committed block,
  -- and waits where there is none or a block before it is pending.
  abbrev pub Frees : List Entry → RingBuffer → Option (Look × RingBuffer) → Type 0
  Frees [] r o = o ≡ some (blocked, r)
  Frees (filler n ∷ es) r o = Frees es r o
  Frees (block dropped bytes ∷ es) r o = Frees es r o
  Frees (block pending bytes ∷ es) r o = o ≡ some (blocked, r)
  Frees (block ready bytes ∷ es) r o =
      (ptr : ℕ) × (r' : RingBuffer) × (o ≡ some (found ptr (length bytes), r')) × IsRing k a r' es

  free_loop-Frees :
      (n x : ℕ) (es : List Entry) (r : RingBuffer)
      → IsShape k a
      → Holds k a r.mem x es r.ix_write
      → r.ix_read ≤ x
      → r.ix_write < 2 ^ 62
      → r.ix_write ≤ r.ix_read + 2 ^ k
      → 2 ^ a ∣ r.ix_write
      → length es < n
      → Frees es r (free_loop k a n x r)
  unfolding free_loop
  free_loop-Frees zero x es r shape holds begun early turn aligned fuel = absurd (omega arith)
  free_loop-Frees (suc n) x [] r shape holds begun early turn aligned fuel =
      rw (holds, ==_refl r.ix_write)
  free_loop-Frees (suc n) x (filler m ∷ es) r shape holds begun early turn aligned fuel =
      rw
        (
          ==_ne r.ix_write x (unread r x (filler m) es shape holds),
          get_first_block-answer r x (filler m) shape (before r x (filler m) es holds early)
              holds.0,
        )
        (free_loop-Frees n (x + m) es r shape holds.1 (omega arith) early turn aligned
          (omega arith))
  free_loop-Frees (suc n) x (block pending bytes ∷ es) r shape holds begun early turn aligned fuel =
      rw (
        ==_ne r.ix_write x (unread r x (block pending bytes) es shape holds),
        get_first_block-answer r x (block pending bytes) shape
            (before r x (block pending bytes) es holds early) holds.0,
      )
  free_loop-Frees (suc n) x (block ready bytes ∷ es) r shape holds begun early turn aligned fuel =
      rw
        (
          ==_ne r.ix_write x (unread r x (block ready bytes) es shape holds),
          get_first_block-answer r x (block ready bytes) shape
              (before r x (block ready bytes) es holds early) holds.0,
        )
        (
          x % 2 ^ k + 2 ^ a,
          advance_to behind r,
          refl,
          (
            subst (λ t. Holds k a r.mem t es r.ix_write) (sym level) holds.1,
            omega (arith, level, turn, begun),
            aligned,
          ),
        )
    where
      behind : ℕ
      behind = x + (2 ^ a + length bytes)

      level : (advance_to behind r).ix_read ≡ behind
      level = omega (arith, Holds-le k a r.mem behind es r.ix_write holds.1)
  free_loop-Frees (suc n) x (block dropped bytes ∷ es) r shape holds begun early turn aligned fuel =
      rw
        (
          ==_ne r.ix_write x (unread r x (block dropped bytes) es shape holds),
          get_first_block-answer r x (block dropped bytes) shape
              (before r x (block dropped bytes) es holds early) holds.0,
        )
        (free_loop-Frees n (x + (2 ^ a + length bytes)) es r shape holds.1 (omega arith) early turn
          aligned (omega arith))

  -- `free` on a sound ring, on the entries as they are: with a committed block that no pending one
  -- stands before, that block is given up with all before it, and what is left is a sound ring of
  -- the entries behind; with a pending block in front or without any block that is not skipped, its
  -- loop comes to the point where it waits for a writer, and nothing has been given up.
  pub free-Frees :
      (es : List Entry) (r : RingBuffer)
      → IsShape k a
      → IsRing k a r es
      → r.ix_write < 2 ^ 62
      → Frees es r (free k a r)
  unfolding free
  free-Frees es r shape (holds, turn, aligned) early =
      free_loop-Frees (suc (2 ^ k)) r.ix_read es r shape holds (omega arith) early turn aligned
        (omega (arith, length-Holds r.mem r.ix_read es r.ix_write holds))
