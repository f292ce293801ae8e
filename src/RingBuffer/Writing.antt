-- ===== src/RingBuffer/Writing.antt =====
-- A block behind the entries of the ring: what `allocate` promises, and its last step.
use sdk_cp.Base.{
  ℕ, ◌+◌, ◌-◌, ◌%◌, ◌^◌, ◌≤◌, ◌<◌, ◌≡◌, refl, sym, ap, ◌∙◌, subst, arith, List, [], ◌∷◌, ◌++◌,
  length, append_assoc, u32, add64, sub64, Bool, true, false, lt→ltb, le→ltb, dec_lt,
}
use sdk_cp.Base.Memory.{Memory, load, length-load}
use sdk_cp.Ws.Bytes.{le_bytes}
use Prim.Native.Nat.{◌∣◌}
use native.Mathlib.Nat.{
  one-le-pow, pow-le-pow_right, mod-lt, dvd_refl, dvd-add, dvd-sub, dvd-mod_iff, le_of_dvd,
}
use sdk_cp.RingBuffer.{
  RingBuffer, busy, set_prefix, Grant, refused, waits, granted, gives_up, place,
}
use sdk_cp.RingBuffer.Places.{overhead-eq, unit-dvd-size}
use sdk_cp.RingBuffer.Entries.{
  pending, Entry, block, IsShape, IsAt, Holds, IsRing, Holds-le, Holds-append, Holds-behind,
  set_prefix-Agrees, set_prefix_loads,
}

module _ (k a : ℕ) where
  -- What `allocate` promises of its answer for at least `size` bytes: without a block, the entries
  -- are as before; a block stands behind them, or behind a fake one that fills the memory to its
  -- end, with room for the bytes within the memory, at the offset and with the handle answered.
  abbrev pub Appends : List Entry → ℕ → Grant × RingBuffer → Type 0
  Appends es size (refused, r) = IsRing k a r es
  Appends es size (waits, r) = IsRing k a r es
  Appends es size (granted ptr handle, r) =
      (fill : List Entry) × (bytes : List ℕ) × (x : ℕ) × IsRing k a r
        (es ++ (fill ++ (block pending bytes ∷ [])))
      × Holds k a r.mem r.ix_read (es ++ fill) x
      × (size ≤ length bytes)
      × (ptr + length bytes ≤ 2 ^ k)
      × (ptr ≡ x % 2 ^ k + 2 ^ a)
      × (handle ≡ u32 x)

  pub gives_up-Appends :
      (no_wait : Bool) (es : List Entry) (size : ℕ) (r : RingBuffer)
      → IsRing k a r es
      → Appends es size (gives_up no_wait, r)
  gives_up-Appends true es size r ring = ring
  gives_up-Appends false es size r ring = ring

  pub shape_unit : IsShape k a → 8 ≤ 2 ^ a
  shape_unit (low, high, ratio, top) = pow-le-pow_right (omega arith) low

  pub shape_top : IsShape k a → 2 ^ k ≤ 2 ^ 31
  shape_top (low, high, ratio, top) = pow-le-pow_right (omega arith) top

  -- A block written at an index within one turn from the read index.
  block-IsAt :
      (mem : Memory) (x n : ℕ)
      → x % 2 ^ k + (2 ^ a + n) ≤ 2 ^ k
      → IsAt k a
          (set_prefix (x % 2 ^ k) n busy mem)
          x
          (block pending (load n (x % 2 ^ k + 2 ^ a) (set_prefix (x % 2 ^ k) n busy mem)))
  block-IsAt mem x n fits = (
    (set_prefix_loads (x % 2 ^ k) n busy mem).0 ∙ ap (le_bytes 4) (sym measure),
    (set_prefix_loads (x % 2 ^ k) n busy mem).1,
    ap (λ m. load m (x % 2 ^ k + 2 ^ a) (set_prefix (x % 2 ^ k) n busy mem)) measure,
    omega (arith, measure),
  )
    where
      measure : length (load n (x % 2 ^ k + 2 ^ a) (set_prefix (x % 2 ^ k) n busy mem)) ≡ n
      measure = length-load n (x % 2 ^ k + 2 ^ a) (set_prefix (x % 2 ^ k) n busy mem)

  granted-Appends :
      (es fill : List Entry) (r : RingBuffer) (x size n commit_size : ℕ)
      → IsShape k a
      → Holds k a r.mem r.ix_read (es ++ fill) x
      → x % 2 ^ k + (2 ^ a + n) ≤ 2 ^ k
      → r.ix_write + commit_size ≡ x + (2 ^ a + n)
      → x + (2 ^ a + n) ≤ r.ix_read + 2 ^ k
      → r.ix_write + commit_size < 2 ^ 64
      → 2 ^ a ∣ x
      → 2 ^ a ∣ n
      → size ≤ n
      → Appends es size (
        granted (x % 2 ^ k + 2 ^ a) (u32 x),
        record {
          mem = set_prefix (x % 2 ^ k) n busy r.mem;
          ix_read = r.ix_read;
          ix_write = add64 r.ix_write commit_size;
        },
      )
  granted-Appends es fill r x size n commit_size shape holds fits sum turn small ax ad room = (
    fill,
    bytes,
    x,
    (
      subst (λ l. Holds k a mem' r.ix_read l (add64 r.ix_write commit_size))
          (append_assoc es fill (block pending bytes ∷ []))
          (Holds-append k a mem' r.ix_read (es ++ fill) (block pending bytes ∷ []) x
            (add64 r.ix_write commit_size) kept
            (block-IsAt r.mem x n fits, omega (arith, measure))),
      omega arith,
      subst (λ t. 2 ^ a ∣ t) whole (dvd-add (2 ^ a) ax (dvd-add (2 ^ a) (dvd_refl (2 ^ a)) ad)),
    ),
    kept,
    omega (arith, measure),
    omega (arith, measure),
    refl,
    refl,
  )
    where
      mem' : Memory
      mem' = set_prefix (x % 2 ^ k) n busy r.mem

      bytes : List ℕ
      bytes = load n (x % 2 ^ k + 2 ^ a) mem'

      measure : length bytes ≡ n
      measure = length-load n (x % 2 ^ k + 2 ^ a) mem'

      whole : x + (2 ^ a + n) ≡ add64 r.ix_write commit_size
      whole = omega arith

      kept : Holds k a mem' r.ix_read (es ++ fill) x
      kept =
          Holds-behind k a r.mem mem' r.ix_read (es ++ fill) x x 6 (shape_unit shape)
            (set_prefix-Agrees (x % 2 ^ k) n busy r.mem) (omega arith)
            (omega (arith, shape_unit shape)) (omega (arith, shape_unit shape)) holds

  -- The end of `allocate` at an index behind the entries.
  pub place-Appends :
      (no_wait : Bool) (es fill : List Entry) (r : RingBuffer) (x size n pos end_ix commit_size : ℕ)
      → IsShape k a
      → IsRing k a r es
      → Holds k a r.mem r.ix_read (es ++ fill) x
      → x % 2 ^ k ≡ pos
      → pos + (2 ^ a + n) ≤ 2 ^ k
      → end_ix ≡ x + (2 ^ a + n)
      → r.ix_write + commit_size ≡ end_ix
      → end_ix < 2 ^ 63
      → 2 ^ a ∣ x
      → 2 ^ a ∣ n
      → size ≤ n
      → Appends es size (place k a no_wait n pos x end_ix commit_size r)
  unfolding place
  place-Appends no_wait es fill r x size n pos end_ix commit_size shape ring holds at fits e sum
        small ax an room =
      elim (dec_lt (2 ^ k) (end_ix - r.ix_read)) [
        | yes full ↦
            rw (plain, lt→ltb (2 ^ k) (end_ix - r.ix_read) full)
              (gives_up-Appends no_wait es size r ring)
        | no free ↦
            rw
              (
                plain,
                le→ltb (2 ^ k) (end_ix - r.ix_read) (omega arith),
                overhead-eq k a shape.0 shape.1,
                ← at,
              )
              (granted-Appends es fill r x size n commit_size shape holds (omega (arith, at))
                (omega (arith, e, sum)) (omega (arith, e, reached, free)) (omega (arith, sum)) ax an
                room)
      ]
    where
      reached : r.ix_read ≤ x
      reached = Holds-le k a r.mem r.ix_read (es ++ fill) x holds

      plain : sub64 end_ix r.ix_read ≡ end_ix - r.ix_read
      plain = omega (arith, reached, e)

  -- The rest of the memory behind the write index is a multiple of the alignment.
  pub rest_fits :
      (w : ℕ) → IsShape k a → 2 ^ a ∣ w → (2 ^ a ≤ 2 ^ k - w % 2 ^ k) × (2 ^ a ∣ 2 ^ k - w % 2 ^ k)
  rest_fits w (low, high, ratio, top) aw = (le_of_dvd (omega (arith, below)) divides, divides)
    where
      below : w % 2 ^ k < 2 ^ k
      below = mod-lt w (one-le-pow k 2 (omega arith))

      divides : 2 ^ a ∣ 2 ^ k - w % 2 ^ k
      divides =
          dvd-sub (2 ^ a) (unit-dvd-size k a (omega arith))
            ((dvd-mod_iff (2 ^ a) (unit-dvd-size k a (omega arith))).1 aw)
