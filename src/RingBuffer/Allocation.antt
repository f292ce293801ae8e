-- ===== src/RingBuffer/Allocation.antt =====
-- `allocate` puts a block behind the entries of the ring, and keeps them.
use sdk_cp.Base.{
  ℕ, suc, ◌+◌, ◌-◌, ◌*◌, ◌/◌, ◌%◌, ◌^◌, ◌≤◌, ◌<◌, ◌≡◌, refl, sym, ap, ◌∙◌, subst, arith, List, [],
  ◌∷◌, ◌++◌, append-nil, u32, add64, sub64, Bool, lt→ltb, le→ltb, dec_lt, ==_ne, ==_refl,
}
use sdk_cp.Base.Memory.{Memory}
use Prim.Native.Nat.{◌∣◌}
use native.Mathlib.Nat.{
  one-le-pow, pow-suc, pow-le-pow_right, suc-mul, div-add-mod', mod-lt, dvd-add,
}
use sdk_cp.RingBuffer.{
  RingBuffer, fake, set_prefix, padded, place_around, allocate_padded, allocate,
}
use sdk_cp.RingBuffer.Places.{
  overhead-eq, slot-mod, padded_bounds, end_block-here, end_block-next, mod_of,
}
use sdk_cp.RingBuffer.Entries.{
  Entry, filler, IsShape, Holds, IsRing, Holds-le, Holds-append, Holds-behind, set_prefix-Agrees,
  set_prefix_loads,
}
use sdk_cp.RingBuffer.Writing.{
  Appends, gives_up-Appends, shape_unit, shape_top, place-Appends, rest_fits,
}

module _ (k a : ℕ) where
  place_around-Appends :
      (no_wait : Bool) (es : List Entry) (r : RingBuffer) (size n : ℕ)
      → IsShape k a
      → IsRing k a r es
      → r.ix_write < 2 ^ 62
      → n < 2 ^ 31
      → 2 ^ a + n ≤ 2 ^ k
      → 2 ^ a ∣ n
      → size ≤ n
      → Appends k a es size (place_around k a no_wait n (n + 2 ^ a) r)
  unfolding place_around
  place_around-Appends no_wait es r size n shape ring early small fits an room =
      rw (overhead-eq k a shape.0 shape.1, slot-mod k a r.ix_write, plain)
        (elim (dec_lt (2 ^ k) (r.ix_write + 2 ^ a - r.ix_read)) [
          | yes full ↦
              rw (lt→ltb (2 ^ k) (r.ix_write + 2 ^ a - r.ix_read) full)
                (gives_up-Appends k a no_wait es size r ring)
          | no free ↦ rw (le→ltb (2 ^ k) (r.ix_write + 2 ^ a - r.ix_read) (omega arith)) (
              place-Appends k a no_wait es (filler rest ∷ []) r1 (add64 r.ix_write rest) size n 0
                (add64 (add64 r.ix_write (n + 2 ^ a)) rest) (add64 (n + 2 ^ a) rest) shape
                (kept free, ring.1, ring.2) (filled free) front (omega arith)
                (omega (arith, low, unit)) (omega (arith, low, unit)) (omega (arith, low, unit))
                aligned an room)
        ])
    where
      reached : r.ix_read ≤ r.ix_write
      reached = Holds-le k a r.mem r.ix_read es r.ix_write ring.0

      unit : 2 ^ a ≤ 2 ^ 7
      unit = pow-le-pow_right (omega arith) shape.1

      plain : sub64 (add64 r.ix_write (2 ^ a)) r.ix_read ≡ r.ix_write + 2 ^ a - r.ix_read
      plain = omega (arith, reached, unit)

      w : ℕ
      w = r.ix_write

      rest : ℕ
      rest = 2 ^ k - w % 2 ^ k

      low : rest ≤ 2 ^ 31
      low = omega (arith, shape_top k a shape)

      mem1 : Memory
      mem1 = set_prefix (w % 2 ^ k) rest fake r.mem

      r1 : RingBuffer
      r1 = record { mem = mem1; ix_read = r.ix_read; ix_write = r.ix_write }

      wide : 2 ^ a ≤ rest
      wide = (rest_fits k a w shape ring.2).0

      kept : ¬ (2 ^ k < r.ix_write + 2 ^ a - r.ix_read) → Holds k a mem1 r.ix_read es w
      kept free =
          Holds-behind k a r.mem mem1 r.ix_read es w w 6 (shape_unit k a shape)
            (set_prefix-Agrees (w % 2 ^ k) rest fake r.mem) (omega arith)
            (omega (arith, free, shape_unit k a shape, reached))
            (omega (arith, shape_unit k a shape, wide)) ring.0

      sum : add64 w rest ≡ w + rest
      sum = omega (arith, low)

      filled :
          ¬ (2 ^ k < r.ix_write + 2 ^ a - r.ix_read)
          → Holds k a mem1 r.ix_read (es ++ (filler rest ∷ [])) (add64 w rest)
      filled free =
          Holds-append k a mem1 r.ix_read es (filler rest ∷ []) w (add64 w rest) (kept free) (
            (
              (set_prefix_loads (w % 2 ^ k) rest fake r.mem).0,
              (set_prefix_loads (w % 2 ^ k) rest fake r.mem).1,
              omega (arith, mod-lt w (one-le-pow k 2 (omega arith))),
              wide,
            ),
            sym sum,
          )

      front : add64 w rest % 2 ^ k ≡ 0
      front =
          ap (λ t. t % 2 ^ k) turn
          ∙ mod_of (2 ^ k) (suc (w / 2 ^ k)) 0 (one-le-pow k 2 (omega arith))
        where
          turn : add64 w rest ≡ suc (w / 2 ^ k) * 2 ^ k + 0
          turn = omega (
            arith,
            sum,
            suc-mul (w / 2 ^ k) (2 ^ k),
            div-add-mod' w (2 ^ k),
            mod-lt w (one-le-pow k 2 (omega arith)),
          )

      aligned : 2 ^ a ∣ add64 w rest
      aligned =
          subst (λ t. 2 ^ a ∣ t) (sym sum) (dvd-add (2 ^ a) ring.2 (rest_fits k a w shape ring.2).1)

  allocate_padded-Appends :
      (no_wait : Bool) (es : List Entry) (r : RingBuffer) (size n : ℕ)
      → IsShape k a
      → IsRing k a r es
      → r.ix_write < 2 ^ 62
      → n < 2 ^ 31
      → 0 < n
      → 2 ^ a + n < 2 ^ k
      → 2 ^ a ∣ n
      → size ≤ n
      → Appends k a es size (allocate_padded k a no_wait n r)
  unfolding allocate_padded
  allocate_padded-Appends no_wait es r size n shape ring early small some_bytes fits an room =
      rw (overhead-eq k a shape.0 shape.1, plain, forward, slot-mod k a w)
        (elim (dec_lt (2 ^ k) (w % 2 ^ k + (n + 2 ^ a))) [
          | yes across ↦
              rw
                (
                  end_block-next k a w (n + 2 ^ a) (omega arith) (omega (arith, unit)) across
                      (omega arith),
                  ==_ne (suc (w / 2 ^ k)) (w / 2 ^ k) (λ e. omega arith),
                )
                (place_around-Appends no_wait es r size n shape ring early small (omega arith) an
                  room)
          | no within ↦
              rw
                (
                  end_block-here k a w (n + 2 ^ a) (omega arith) (omega (arith, unit))
                      (omega arith),
                  ==_refl (w / 2 ^ k),
                )
                (place-Appends k a no_wait es [] r w size n (w % 2 ^ k) (w + (n + 2 ^ a))
                  (n + 2 ^ a) shape ring
                  (subst (λ l. Holds k a r.mem r.ix_read l w) (sym (append-nil es)) ring.0) refl
                  (omega arith) (omega arith) refl (omega (arith, unit)) ring.2 an room)
        ])
    where
      w : ℕ
      w = r.ix_write

      unit : 2 ^ a ≤ 2 ^ 7
      unit = pow-le-pow_right (omega arith) shape.1

      plain : u32 (n + 2 ^ a) ≡ n + 2 ^ a
      plain = omega (arith, unit)

      forward : add64 w (n + 2 ^ a) ≡ w + (n + 2 ^ a)
      forward = omega (arith, unit)

  -- `allocate` keeps a sound ring, on every branch: it is refused or waits, and the entries are as
  -- before, or it answers the offset and the handle of a new block for at least the size asked,
  -- which stands behind the others and lies within the memory. The alignment is from 8 to 128 and
  -- at most a quarter of the size of the ring, and the write index below 2 ^ 62.
  pub allocate-Appends :
      (no_wait : Bool) (es : List Entry) (r : RingBuffer) (size : ℕ)
      → IsShape k a
      → IsRing k a r es
      → r.ix_write < 2 ^ 62
      → Appends k a es size (allocate k a no_wait size r)
  unfolding allocate
  allocate-Appends no_wait es r size shape ring early = elim (dec_lt 0 size) [
    | no none_asked ↦ rw (empty none_asked) ring
    | yes asked ↦ elim (dec_lt (2 ^ k / 2 ^ 2) size) [
      | yes much ↦ rw (==_ne size 0 (omega arith), lt→ltb (2 ^ k / 2 ^ 2) size much) ring
      | no little ↦
          rw (==_ne size 0 (omega arith), le→ltb (2 ^ k / 2 ^ 2) size (omega arith))
            (allocate_padded-Appends no_wait es r size (padded k a size) shape ring early
              (omega (arith, (bounds little).1, quarter, shape_top k a shape, little))
              (omega (arith, (bounds little).0)) (omega (arith, (bounds little).1, quarter, little))
              (bounds little).2 (bounds little).0)
    ]
  ]
    where
      empty : ¬ (0 < size) → size ≡ 0
      empty h = omega (arith, h)

      bounds :
          ¬ (2 ^ k / 2 ^ 2 < size)
          → (size ≤ padded k a size) × (padded k a size < size + 2 ^ a) × (2 ^ a ∣ padded k a size)
      bounds little = padded_bounds k a size shape.1 (omega (arith, little, shape_top k a shape))

      quarter : 2 ^ a * 2 * 2 ≤ 2 ^ k
      quarter = omega (
        arith,
        pow-le-pow_right {n = 2} (omega arith) shape.2,
        pow-suc 2 a,
        pow-suc 2 (suc a),
        ap (λ x. 2 ^ x) two_more,
      )
        where
          two_more : a + 2 ≡ suc (suc a)
          two_more = omega arith
