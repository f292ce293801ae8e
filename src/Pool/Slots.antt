-- ===== src/Pool/Slots.antt =====
-- Reading and writing the slot of a position.
use sdk_cp.Base.{
  some_eq, none≢some, ℕ, ◌+◌, ◌*◌, ◌/◌, ◌%◌, ◌<◌, ◌≡◌, arith, ap, ap₂, sym, ◌∙◌, if◌then◌else◌,
  ◌==◌, ==_ne, ==_refl, Option, none, some, List, length, get_elem?, set, get_elem?-set_self,
  get_elem?-set_ne, get_elem?_lt, lt→ltb, ℕ_discrete, Option-cases, inl, inr, dec_lt, le→ltb,
}
use native.Mathlib.Nat.{div-add-mod}
use sdk_cp.Pool.{Chunk, slot, set_slot}

-- Positions with the same chunk and the same place in it are one.
position_eq : (n i j : ℕ) → i / n ≡ j / n → i % n ≡ j % n → i ≡ j
position_eq n i j hd hm = sym (div-add-mod i n) ∙ ap₂ (λ q r. n * q + r) hd hm ∙ div-add-mod j n

module _ {ℓ} {A : Type ℓ} (n : ℕ) (cs : List (Chunk A)) (i : ℕ) (x : Option A) where
  -- What a successful write found and did.
  pub set_slot_parts :
      (cs' : List (Chunk A))
      → set_slot n cs i x ≡ some cs'
      → (l : List (Option A)) × (get_elem? cs (i / n) ≡ some (some l))
        × (i % n < length l)
        × (cs' ≡ set cs (i / n) (some (set l (i % n) x)))
  set_slot_parts cs' e = elim (Option-cases (get_elem? cs (i / n))) [
    | inl missing ↦ absurd (none≢some (rw missing at e))
    | inr (none, null) ↦ absurd (none≢some (rw null at e))
    | inr (some l, found) ↦ elim (dec_lt (i % n) (length l)) [
      | no out ↦ absurd (none≢some (rw (found, le→ltb (i % n) (length l) (omega arith)) at e))
      | yes h ↦ (l, found, h, sym (some_eq (rw (found, lt→ltb (i % n) (length l) h) at e)))
    ]
  ]

  -- A write changes its own slot alone.
  pub slot-set_slot :
      (cs' : List (Chunk A)) (j : ℕ)
      → set_slot n cs i x ≡ some cs'
      → slot n cs' j ≡ (if i == j then some x else slot n cs j)
  slot-set_slot cs' j e =
      let (l, found, h, made) = set_slot_parts cs' e in
      let at_chunk = get_elem?_lt cs (i / n) found in
      elim (ℕ_discrete (i / n) (j / n)) [
        | no other ↦ rw (
          made,
          get_elem?-set_ne cs (i / n) (j / n) (some (set l (i % n) x)) other,
          ==_ne i j (λ same. other (ap (λ k. k / n) same)),
        )
        | yes chunk ↦ elim (ℕ_discrete (i % n) (j % n)) [
          | no other ↦ rw (
            made,
            ← chunk,
            get_elem?-set_self cs (i / n) (some (set l (i % n) x)) at_chunk,
            get_elem?-set_ne l (i % n) (j % n) x other,
            ==_ne i j (λ same. other (ap (λ k. k % n) same)),
            found,
          )
          | yes place ↦ rw (
            made,
            ← chunk,
            get_elem?-set_self cs (i / n) (some (set l (i % n) x)) at_chunk,
            ← place,
            get_elem?-set_self l (i % n) x h,
            ← position_eq n i j chunk place,
            ==_refl i,
          )
        ]
      ]
