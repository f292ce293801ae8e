-- ===== src/StaticFrame/Window.antt =====
-- A step forward moves every item of the window one place back.
use sdk_cp.Base.{
  ℕ, suc, ◌+◌, ◌-◌, ◌%◌, ◌^◌, ◌≤◌, ◌<◌, ◌≡◌, ◌≢◌, arith, ap, sym, ◌∙◌, min, if◌then◌else◌, leb,
  some, length, length-set, get_elem?, set, get_elem?-set_self, get_elem?-set_ne, get_elem?-some,
  ◌>>=◌, sub64, add64, dec_le,
}
use native.Mathlib.Nat.{add-mod_right, mod-eq_of_lt, mod-lt}
use sdk_cp.StaticFrame.{StaticFrame, from_first, get_from_first, set_first, move_fwd, move_bck}

-- A sum below two rounds of the ring.
mod_once : (n m : ℕ) → n < m + m → n % m ≡ (if leb m n then n - m else n)
mod_once n m h = elim (dec_le m n) [
  | yes le ↦
      ap (λ k. k % m) {x = n} {y = n - m + m} (omega arith)
      ∙ (add-mod_right (n - m) m ∙ (mod-eq_of_lt (omega arith) ∙ ground arith))
  | no lt ↦ mod-eq_of_lt (omega arith) ∙ ground arith
]

module _ {ℓ} {T : Type ℓ} (sz : ℕ) where
  abbrev pub IsFrame : StaticFrame T → Type 0
  IsFrame s = (length s.cells ≡ sz + 1) × ((s.iterator < sz + 1) × (s.stored ≤ sz))

  module _ (s : StaticFrame T) (frame : IsFrame s) (pos : 1 < sz) (small : sz < 2 ^ 62) where
    abbrev oldest : ℕ
    oldest = (s.iterator + (sz + 1) - sz + 1) % (sz + 1)

    abbrev next : ℕ
    next = add64 s.iterator 1 % (sz + 1)

    oldest_at : oldest ≡ (if leb sz (s.iterator + 1) then s.iterator + 1 - sz else s.iterator + 2)
    oldest_at = ground (arith, mod_once (s.iterator + (sz + 1) - sz + 1) (sz + 1) (omega arith))

    next_at : next ≡ (if leb sz s.iterator then 0 else s.iterator + 1)
    next_at = ground (arith, mod_once (s.iterator + 1) (sz + 1) (omega arith))

    -- The cell of an offset, before the step and after it.
    behind_at :
        (k : ℕ)
        → k ≤ sz
        → from_first sz k s % (sz + 1)
          ≡ (if leb k s.iterator then s.iterator - k else s.iterator + (sz + 1) - k)
    behind_at k h = ground (arith, mod_once (s.iterator + (sz + 1) - k) (sz + 1) (omega arith))

    next_lt : next < sz + 1
    next_lt = mod-lt (add64 s.iterator 1) (omega arith)

    oldest_lt : oldest < sz + 1
    oldest_lt = mod-lt (s.iterator + (sz + 1) - sz + 1) (omega arith)

    next-behind :
        (k : ℕ)
        → suc k ≤ sz
        → sub64 (next + (sz + 1)) (suc k) % (sz + 1) ≡ from_first sz k s % (sz + 1)
    next-behind k h =
        ap (λ j. j % (sz + 1)) {x = sub64 (next + (sz + 1)) (suc k)} {y = next + (sz + 1) - suc k}
          (omega (arith, next_lt))
        ∙ (mod_once (next + (sz + 1) - suc k) (sz + 1) (omega (arith, next_lt))
            ∙ (pieces next next_lt next_at ∙ sym (behind_at k (omega arith))))
      where
        pieces :
            (i : ℕ)
            → i < sz + 1
            → i ≡ (if leb sz s.iterator then 0 else s.iterator + 1)
            → (if leb (sz + 1) (i + (sz + 1) - suc k)
                then i + (sz + 1) - suc k - (sz + 1)
                else i + (sz + 1) - suc k)
              ≡ (if leb k s.iterator then s.iterator - k else s.iterator + (sz + 1) - k)
        pieces i lt e = ground arith

    behind-oldest : (k : ℕ) → suc k < sz → oldest ≢ from_first sz k s % (sz + 1)
    behind-oldest k h e = apart _ _ oldest_at (behind_at k (omega arith)) e
      where
        apart :
            (o b : ℕ)
            → o ≡ (if leb sz (s.iterator + 1) then s.iterator + 1 - sz else s.iterator + 2)
            → b ≡ (if leb k s.iterator then s.iterator - k else s.iterator + (sz + 1) - k)
            → o ≢ b
        apart o b ho hb e = ground arith

    behind-next : (k : ℕ) → suc k < sz → next ≢ from_first sz k s % (sz + 1)
    behind-next k h e = apart _ _ next_at (behind_at k (omega arith)) e
      where
        apart :
            (o b : ℕ)
            → o ≡ (if leb sz s.iterator then 0 else s.iterator + 1)
            → b ≡ (if leb k s.iterator then s.iterator - k else s.iterator + (sz + 1) - k)
            → o ≢ b
        apart o b ho hb e = ground arith

    module _ (x : T) (v : T) where
      abbrev pub stepped : StaticFrame T
      stepped = record {
        cells = set (set s.cells oldest x) next v;
        iterator = next;
        stored = min (add64 s.stored 1) sz;
      }

      stepped_size : length stepped.cells ≡ sz + 1
      stepped_size =
          length-set (set s.cells oldest x) next v ∙ (length-set s.cells oldest x ∙ frame.0)

      stepped_first : get_from_first sz 0 stepped ≡ some v
      stepped_first =
          ap (get_elem? stepped.cells) first
          ∙ get_elem?-set_self (set s.cells oldest x) next v
              (omega (arith, next_lt, length-set s.cells oldest x))
        where
          first : from_first sz 0 stepped % (sz + 1) ≡ next
          first =
              ap (λ j. j % (sz + 1)) {x = sub64 (next + (sz + 1)) 0} {y = next + (sz + 1)}
                (omega (arith, next_lt))
              ∙ (add-mod_right next (sz + 1) ∙ mod-eq_of_lt next_lt)

      stepped_behind :
          (k : ℕ) → suc k < sz → get_from_first sz (suc k) stepped ≡ get_from_first sz k s
      stepped_behind k h =
          ap (get_elem? stepped.cells) (next-behind k (omega arith))
          ∙ (get_elem?-set_ne (set s.cells oldest x) next (from_first sz k s % (sz + 1)) v
                (behind-next k h)
              ∙ get_elem?-set_ne s.cells oldest (from_first sz k s % (sz + 1)) x
                  (behind-oldest k h))

    step_runs :
        (f : T → T) (v x y : T)
        → get_elem? s.cells oldest ≡ some x
        → get_elem? (set s.cells oldest (f x)) next ≡ some y
        → (move_fwd sz f s >>= set_first sz v) ≡ some (stepped (f x) v)
    step_runs f v x y e e' = rw (e, mod-eq_of_lt next_lt, e')

    -- A step forward, with the write of `v` through the reference that it returns, is defined on a
    -- frame whose invariant holds, and keeps the invariant (`SZ + 1` cells, the iterator on one of them,
    -- at most `SZ` items). Then `v` is the first item, every other item of the window is one place
    -- further back, whatever the callback does to the oldest, and the size is one more, up to `SZ`.
    -- `SZ` is at least 2 and below 2 ^ 62.
    pub move_fwd-set_first :
        (f : T → T) (v : T)
        → (s' : StaticFrame T) × ((move_fwd sz f s >>= set_first sz v) ≡ some s')
          × IsFrame s'
          × (get_from_first sz 0 s' ≡ some v)
          × ((k : ℕ) → suc k < sz → get_from_first sz (suc k) s' ≡ get_from_first sz k s)
          × (s'.stored ≡ min (s.stored + 1) sz)
    move_fwd-set_first f v =
        let (x, e) = get_elem?-some s.cells oldest (omega (arith, oldest_lt, frame.0)) in
        let (y, e') =
          get_elem?-some (set s.cells oldest (f x)) next
            (omega (arith, next_lt, frame.0, length-set s.cells oldest (f x))) in
        (
          stepped (f x) v,
          step_runs f v x y e e',
          (stepped_size (f x) v, (next_lt, omega arith)),
          stepped_first (f x) v,
          stepped_behind (f x) v,
          omega (arith, frame.1.1),
        )

  -- What a step back leaves.
  abbrev stepped_back : T → StaticFrame T → StaticFrame T
  stepped_back x s = record s {
    cells = set s.cells (s.iterator % (sz + 1)) x;
    iterator = (s.iterator + (sz + 1) - 1) % (sz + 1);
    stored = min (sub64 s.stored 1) 0;
  }

  move_bck-stepped_back :
      (f : T → T) (s : StaticFrame T) (x : T)
      → get_elem? s.cells (s.iterator % (sz + 1)) ≡ some x
      → move_bck sz f s ≡ some (stepped_back (f x) s)
  move_bck-stepped_back f s x e = rw e

  -- `move_bck` is defined on every frame whose invariant holds, and leaves a size of 0, however many
  -- items the frame had before.
  pub move_bck_empties :
      (f : T → T) (s : StaticFrame T)
      → IsFrame s
      → (s' : StaticFrame T) × (move_bck sz f s ≡ some s') × (s'.stored ≡ 0)
  move_bck_empties f s frame =
      let (x, e) =
        get_elem?-some s.cells (s.iterator % (sz + 1))
          (omega (arith, frame.0, mod-lt s.iterator {m = sz + 1} (omega arith))) in
      (stepped_back (f x) s, move_bck-stepped_back f s x e, omega arith)
