-- ===== src/Pool/Contents.antt =====
-- The pool as a finite map from positions to objects, and its invariant: every chunk is there, and the
-- stack holds each free position once and nothing else.
use sdk_cp.Base.{
  none≢some, some_eq, ℕ, zero, suc, ◌/◌, ◌%◌, ◌≡◌, ◌∙◌, List, [], ◌∷◌, Option, none, some,
  Option-cases, inl, inr, get_elem?, length, set, All, lt→ltb, get_elem?_lt, length-set, subst,
}
use sdk_cp.Pool.{Pool, Chunk, slot, set_slot}
use sdk_cp.Pool.Slots.{set_slot_parts}
use sdk_cp.Pool.Free.{count}

module _ {ℓ} {A : Type ℓ} where
  -- The object in a slot.
  abbrev pub object : Option (Option A) → Option A
  object none = none
  object (some x) = x

  -- Whether a slot is there and empty.
  abbrev pub free_at : Option (Option A) → ℕ
  free_at none = 0
  free_at (some none) = 1
  free_at (some (some a)) = 0

  abbrev pub Shaped : ℕ → Chunk A → Type 0
  Shaped n none = ⊥
  Shaped n (some l) = length l ≡ n

  abbrev pub IsConsistent : ℕ → Pool A → Type 0
  IsConsistent n p =
      All (Shaped n) p.chunks × ((i : ℕ) → count i p.empty_objs ≡ free_at (slot n p.chunks i))

  abbrev pub contents : ℕ → Pool A → ℕ → Option A
  contents n p i = object (slot n p.chunks i)

pub All-set {ℓ κ} :
    {A : Type ℓ} (P : A → Type κ) (xs : List A) (i : ℕ) (v : A)
    → All P xs
    → P v
    → All P (set xs i v)
All-set P [] i v h hv = h
All-set P (x ∷ xs) zero v h hv = (hv, h.1)
All-set P (x ∷ xs) (suc i) v h hv = (h.0, All-set P xs i v h.1 hv)

All-get {ℓ κ} :
    {A : Type ℓ} (P : A → Type κ) (xs : List A) (i : ℕ) {v : A}
    → All P xs
    → get_elem? xs i ≡ some v
    → P v
All-get P [] i h e = absurd (none≢some e)
All-get P (x ∷ xs) zero h e = subst P (some_eq e) h.0
All-get P (x ∷ xs) (suc i) h e = All-get P xs i h.1 e

module _ {ℓ} {A : Type ℓ} (n : ℕ) (cs : List (Chunk A)) (i : ℕ) where
  -- A slot that is there can be written.
  pub set_slot-some :
      (x y : Option A)
      → slot n cs i ≡ some y
      → (cs' : List (Chunk A)) × (set_slot n cs i x ≡ some cs')
  set_slot-some x y e = elim (Option-cases (get_elem? cs (i / n))) [
    | inl missing ↦ absurd (none≢some (rw missing at e))
    | inr (none, null) ↦ absurd (none≢some (rw null at e))
    | inr (some l, found) ↦ (
      set cs (i / n) (some (set l (i % n) x)),
      rw (found, lt→ltb (i % n) (length l) (get_elem?_lt l (i % n) (rw found at e))),
    )
  ]

  pub set_slot-Shaped :
      (x : Option A) (cs' : List (Chunk A))
      → set_slot n cs i x ≡ some cs'
      → All (Shaped n) cs
      → All (Shaped n) cs'
  set_slot-Shaped x cs' e h =
      let (l, found, lt, made) = set_slot_parts n cs i x cs' e in
      let size : length l ≡ n = All-get (Shaped n) cs (i / n) h found in
      rw made (All-set (Shaped n) cs (i / n) _ h (length-set l (i % n) x ∙ size))
