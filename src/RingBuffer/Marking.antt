-- ===== src/RingBuffer/Marking.antt =====
-- What a writer does to its block: the bytes stored there, `commit` and `skip`.
use sdk_cp.Base.{
  ℕ, zero, suc, ◌+◌, ◌-◌, ◌*◌, ◌/◌, ◌%◌, ◌^◌, ◌≤◌, ◌<◌, ◌≡◌, ◌≢◌, inl, inr, refl, sym, ap, ◌∙◌,
  subst, arith, List, [], ◌∷◌, ◌++◌, length, u32, ==_ne,
}
use sdk_cp.Base.Memory.{Memory, store, Agrees, Agrees-wider, store-Agrees, load-Agrees, load-store}
use sdk_cp.Ws.Bytes.{le_bytes}
use native.Mathlib.Nat.{one-le-pow, pow-le-pow_right, mod-mod_of_dvd, div-mul_cancel, suc-mul}
use sdk_cp.RingBuffer.{RingBuffer, set_state, slot, update_block_state, k_invalid_handle}
use sdk_cp.RingBuffer.Places.{slot-mod, unit-dvd-size, mod_of}
use sdk_cp.RingBuffer.Entries.{
  Status, code, Entry, block, IsShape, extent, IsAt, Holds, IsRing, IsAt-fits, Holds-le,
  Holds-append, Holds-split, Holds-behind, Holds-before, set_state-Agrees,
}

module _ (k a : ℕ) where
  Holds-end :
      (mem : Memory) (x : ℕ) (es : List Entry) (y z : ℕ)
      → Holds k a mem x es y
      → Holds k a mem x es z
      → y ≡ z
  Holds-end mem x [] y z h h' = sym h ∙ h'
  Holds-end mem x (e ∷ es) y z h h' = Holds-end mem (x + extent k a e) es y z h.1 h'.1

  -- The entry behind some entries of a ring.
  entry-IsAt :
      (r : RingBuffer) (xs ys : List Entry) (e : Entry) (x : ℕ)
      → IsRing k a r (xs ++ (e ∷ ys))
      → Holds k a r.mem r.ix_read xs x
      → IsAt k a r.mem x e
  entry-IsAt r xs ys e x ring front =
      let (y, before, (here, behind)) =
        Holds-split k a r.mem r.ix_read xs (e ∷ ys) r.ix_write ring.0 in
      subst (λ t. IsAt k a r.mem t e) (Holds-end r.mem r.ix_read xs y x before front) here

  -- One entry replaced by another of its extent, in the memory of the entry alone.
  replaced-IsRing :
      (r : RingBuffer) (mem' : Memory) (xs ys : List Entry) (e e' : Entry) (x m : ℕ)
      → 8 ≤ 2 ^ a
      → IsRing k a r (xs ++ (e ∷ ys))
      → Holds k a r.mem r.ix_read xs x
      → Agrees (x % 2 ^ k) m r.mem mem'
      → m ≤ extent k a e
      → extent k a e' ≡ extent k a e
      → (IsAt k a r.mem x e → IsAt k a mem' x e')
      → IsRing k a
          (record { mem = mem'; ix_read = r.ix_read; ix_write = r.ix_write })
          (xs ++ (e' ∷ ys))
  replaced-IsRing r mem' xs ys e e' x m unit (holds, turn, aligned) front f within size at =
      let (y, before, (here, behind)) =
        Holds-split k a r.mem r.ix_read xs (e ∷ ys) r.ix_write holds in
      let same : y ≡ x = Holds-end r.mem r.ix_read xs y x before front in
      let here' : IsAt k a r.mem x e = subst (λ t. IsAt k a r.mem t e) same here in
      let behind' : Holds k a r.mem (x + extent k a e) ys r.ix_write =
        subst (λ t. Holds k a r.mem (t + extent k a e) ys r.ix_write) same behind in
      let last = Holds-le k a r.mem (x + extent k a e) ys r.ix_write behind' in
      let first = Holds-le k a r.mem r.ix_read xs x front in
      let fits = (IsAt-fits k a r.mem x e here').0 in
      (
        Holds-append k a mem' r.ix_read xs (e' ∷ ys) x r.ix_write
            (Holds-behind k a r.mem mem' r.ix_read xs x x m unit f (omega arith)
              (omega (arith, last, turn, within)) (omega (arith, fits, within)) front)
            (
              at here',
              subst (λ t. Holds k a mem' (x + t) ys r.ix_write) (sym size)
                  (Holds-before k a r.mem mem' (x + extent k a e) ys r.ix_write x m unit f
                    (omega (arith, within)) (omega (arith, turn, first))
                    (omega (arith, fits, within)) behind'),
            ),
        turn,
        aligned,
      )

  -- The offset behind a handle.
  slot-handle : (x : ℕ) → k ≤ 32 → slot k a (u32 x) ≡ x % 2 ^ k
  slot-handle x h = slot-mod k a (u32 x) ∙ mod-mod_of_dvd (2 ^ k) x (unit-dvd-size 32 k h)

  -- No block of the ring has the handle that stands for none.
  handle_valid : (x : ℕ) → k ≤ 32 → x % 2 ^ k + 8 ≤ 2 ^ k → u32 x ≢ k_invalid_handle
  handle_valid x h fits e = omega (
    arith,
    fits,
    mod-mod_of_dvd (2 ^ k) {b = 2 ^ 32} x (unit-dvd-size 32 k h),
    ap (λ t. t % 2 ^ k) e,
    last,
  )
    where
      last : (2 ^ 32 - 1) % 2 ^ k ≡ 2 ^ k - 1
      last =
          ap (λ t. t % 2 ^ k) split ∙ mod_of (2 ^ k) (2 ^ 32 / 2 ^ k - 1) (2 ^ k - 1) (omega arith)
        where
          split : 2 ^ 32 - 1 ≡ (2 ^ 32 / 2 ^ k - 1) * 2 ^ k + (2 ^ k - 1)
          split = omega (
            arith,
            multiple,
            ap (λ t. t * 2 ^ k) (pred_suc (2 ^ 32 / 2 ^ k) some_turns),
            suc-mul (2 ^ 32 / 2 ^ k - 1) (2 ^ k),
            one-le-pow k 2 (omega arith),
          )
            where
              positive : (q : ℕ) → q * 2 ^ k ≡ 2 ^ 32 → 0 < q
              positive zero e = omega (arith, e)
              positive (suc q) e = omega arith

              pred_suc : (q : ℕ) → 0 < q → suc (q - 1) ≡ q
              pred_suc q h = omega arith

              multiple : 2 ^ 32 / 2 ^ k * 2 ^ k ≡ 2 ^ 32
              multiple = div-mul_cancel (2 ^ k) (unit-dvd-size 32 k h)

              some_turns : 0 < 2 ^ 32 / 2 ^ k
              some_turns = positive (2 ^ 32 / 2 ^ k) multiple

  marked-IsAt :
      (mem : Memory) (x : ℕ) (st st' : Status) (bytes : List ℕ)
      → 8 ≤ 2 ^ a
      → IsAt k a mem x (block st bytes)
      → IsAt k a (set_state (x % 2 ^ k) (code st') mem) x (block st' bytes)
  marked-IsAt mem x st st' bytes unit (size, state, content, fits) = (
    load-Agrees 4 (x % 2 ^ k) (x % 2 ^ k + 4) 2 mem mem' (inl (omega arith)) changed ∙ size,
    load-store (x % 2 ^ k + 4) (le_bytes 2 (code st')) mem,
    load-Agrees (length bytes) (x % 2 ^ k + 2 ^ a) (x % 2 ^ k + 4) 2 mem mem' (inr (omega arith))
          changed
        ∙ content,
    fits,
  )
    where
      mem' : Memory
      mem' = set_state (x % 2 ^ k) (code st') mem

      changed : Agrees (x % 2 ^ k + 4) 2 mem mem'
      changed = set_state-Agrees (x % 2 ^ k) (code st') mem

  unit_of : IsShape k a → 8 ≤ 2 ^ a
  unit_of (low, high, ratio, small) = pow-le-pow_right (omega arith) low

  -- `commit` and `skip` with the handle of a block in the ring change the state of that block
  -- alone: every other entry, and every byte of the blocks, stays.
  pub update_block_state-marks :
      (r : RingBuffer) (xs ys : List Entry) (st st' : Status) (bytes : List ℕ) (x : ℕ)
      → IsShape k a
      → IsRing k a r (xs ++ (block st bytes ∷ ys))
      → Holds k a r.mem r.ix_read xs x
      → IsRing k a (update_block_state k a (u32 x) (code st') r) (xs ++ (block st' bytes ∷ ys))
  unfolding update_block_state
  update_block_state-marks r xs ys st st' bytes x shape ring front =
      rw
        (
          ==_ne (u32 x) k_invalid_handle (
              handle_valid x (omega arith) (
                omega
                  (arith, unit_of shape, (entry-IsAt r xs ys (block st bytes) x ring front).3))),
          slot-handle x (omega arith),
        )
        (replaced-IsRing r (set_state (x % 2 ^ k) (code st') r.mem) xs ys (block st bytes)
          (block st' bytes) x 6 (unit_of shape) ring front
          (Agrees-wider (x % 2 ^ k + 4) 2 (x % 2 ^ k) 6 r.mem
            (set_state (x % 2 ^ k) (code st') r.mem) (omega arith) (omega arith)
            (set_state-Agrees (x % 2 ^ k) (code st') r.mem))
          (omega (arith, unit_of shape)) refl (marked-IsAt r.mem x st st' bytes (unit_of shape)))

  -- Bytes stored where the pointer of a block points change the bytes of that block alone.
  pub store-fills :
      (r : RingBuffer) (xs ys : List Entry) (st : Status) (bytes bytes' : List ℕ) (x : ℕ)
      → IsShape k a
      → IsRing k a r (xs ++ (block st bytes ∷ ys))
      → Holds k a r.mem r.ix_read xs x
      → length bytes' ≡ length bytes
      → IsRing k a
          (record {
            mem = store (x % 2 ^ k + 2 ^ a) bytes' r.mem;
            ix_read = r.ix_read;
            ix_write = r.ix_write;
          })
          (xs ++ (block st bytes' ∷ ys))
  store-fills r xs ys st bytes bytes' x shape ring front size =
      replaced-IsRing r mem' xs ys (block st bytes) (block st bytes') x (2 ^ a + length bytes')
        (unit_of shape) ring front
        (Agrees-wider (x % 2 ^ k + 2 ^ a) (length bytes') (x % 2 ^ k) (2 ^ a + length bytes') r.mem
          mem' (omega arith) (omega arith) changed)
        (omega (arith, size)) (omega (arith, size)) filled
    where
      mem' : Memory
      mem' = store (x % 2 ^ k + 2 ^ a) bytes' r.mem

      changed : Agrees (x % 2 ^ k + 2 ^ a) (length bytes') r.mem mem'
      changed = store-Agrees (x % 2 ^ k + 2 ^ a) bytes' r.mem

      filled : IsAt k a r.mem x (block st bytes) → IsAt k a mem' x (block st bytes')
      filled (prefix, state, content, fits) = (
        load-Agrees 4 (x % 2 ^ k) (x % 2 ^ k + 2 ^ a) (length bytes') r.mem mem'
              (inl (omega (arith, unit_of shape))) changed
            ∙ prefix
            ∙ ap (le_bytes 4) (sym size),
        load-Agrees 2 (x % 2 ^ k + 4) (x % 2 ^ k + 2 ^ a) (length bytes') r.mem mem'
              (inl (omega (arith, unit_of shape))) changed
            ∙ state,
        load-store (x % 2 ^ k + 2 ^ a) bytes' r.mem,
        omega (arith, fits, size),
      )
