-- ===== src/LinearMap/Keys.antt =====
-- The association list behind `_keys`.
use sdk_cp.Base.{
  ℕ, Bool, true, false, if◌then◌else◌, List, [], ◌∷◌, none, ◌≡◌, ◌≢◌, ◌↔◌, sym, ap, ◌∙◌, arith, inl,
  inr, Bool-cases,
}
use sdk_cp.LinearMap.{find_position, erase_position}

module _ {ℓ} {K : Type ℓ} (same : K → K → Bool) where
  -- What `__key_eq` has to do.
  abbrev pub Reflects : Type ℓ
  Reflects = (a b : K) → (same a b ≡ true) ↔ (a ≡ b)

  pub find_position-erase_position :
      (key k : K) (l : List (K × ℕ))
      → Reflects
      → find_position same k (erase_position same key l)
        ≡ (if same key k then none else find_position same k l)
  find_position-erase_position key k [] r = elim (Bool-cases (same key k)) [
    | inl e ↦ rw (e)
    | inr e ↦ rw (e)
  ]
  find_position-erase_position key k ((k', i) ∷ l) r = elim (Bool-cases (same k' key)) [
    | inl e ↦ elim (Bool-cases (same key k)) [
      | inl f ↦ rw (e) (find_position-erase_position key k l r ∙ rw (f))
      | inr f ↦ rw (e) (find_position-erase_position key k l r ∙ rw (f, other e f))
    ]
    | inr e ↦ elim (Bool-cases (same k' k)) [
      | inl f ↦ rw (e, f, another e f)
      | inr f ↦ rw (e, f) (find_position-erase_position key k l r)
    ]
  ]
    where
      differ : false ≢ true
      differ e = ground arith

      other : same k' key ≡ true → same key k ≡ false → same k' k ≡ false
      other e f = ap (λ x. same x k) ((r k' key).0 e) ∙ f

      another : same k' key ≡ false → same k' k ≡ true → same key k ≡ false
      another e f = elim (Bool-cases (same key k)) [
        | inl g ↦ absurd (differ (sym e ∙ (r k' key).1 ((r k' k).0 f ∙ sym ((r key k).0 g))))
        | inr g ↦ g
      ]
