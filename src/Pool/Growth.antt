-- ===== src/Pool/Growth.antt =====
-- A new chunk: `grow` keeps the pool's contents and its invariant, and gives free positions.
use sdk_cp.Base.{
  ℕ, zero, suc, ◌+◌, ◌-◌, ◌*◌, ◌/◌, ◌%◌, ◌≤◌, ◌<◌, ◌≡◌, refl, arith, ◌∙◌, List, [], ◌∷◌, ◌++◌,
  Option, none, some, get_elem?, length, All, dec_lt, ℕ_discrete, replicate, get_elem?-append_left,
  length-replicate,
}
use native.Mathlib.Nat.{div-lt_iff_lt-mul, suc-mul, mod-lt}
use sdk_cp.Pool.{Pool, Chunk, slot, push_positions}
use sdk_cp.Pool.Free.{count, within, count-push_positions}
use sdk_cp.Pool.Contents.{object, free_at, Shaped, IsConsistent, contents}

module _ {ℓ} {A : Type ℓ} where
  pub get_elem?_past : (xs : List A) (i : ℕ) → length xs ≤ i → get_elem? xs i ≡ none
  get_elem?_past [] i h = refl
  get_elem?_past (x ∷ xs) zero h = absurd (omega arith)
  get_elem?_past (x ∷ xs) (suc i) h = get_elem?_past xs i (omega arith)

  pub get_elem?-append_last :
      (xs : List A) (x : A) → get_elem? (xs ++ (x ∷ [])) (length xs) ≡ some x
  get_elem?-append_last [] x = refl
  get_elem?-append_last (y ∷ xs) x = get_elem?-append_last xs x

  pub get_elem?-append_past :
      (xs : List A) (x : A) (i : ℕ) → length xs < i → get_elem? (xs ++ (x ∷ [])) i ≡ none
  get_elem?-append_past [] x zero h = absurd (omega arith)
  get_elem?-append_past [] x (suc i) h = refl
  get_elem?-append_past (y ∷ xs) x zero h = absurd (omega arith)
  get_elem?-append_past (y ∷ xs) x (suc i) h = get_elem?-append_past xs x i (omega arith)

  get_elem?-replicate : (n i : ℕ) (x : A) → i < n → get_elem? (replicate n x) i ≡ some x
  get_elem?-replicate zero i x h = absurd (omega arith)
  get_elem?-replicate (suc n) zero x h = refl
  get_elem?-replicate (suc n) (suc i) x h = get_elem?-replicate n i x (omega arith)

All-append_last {ℓ κ} :
    {A : Type ℓ} (P : A → Type κ) (xs : List A) (x : A) → All P xs → P x → All P (xs ++ (x ∷ []))
All-append_last P [] x h hx = (hx, tt)
All-append_last P (y ∷ xs) x h hx = (h.0, All-append_last P xs x h.1 hx)

module _ {ℓ} {A : Type ℓ} (n : ℕ) (pos : 0 < n) (cs : List (Chunk A)) where
  abbrev fresh : List (Chunk A)
  fresh = cs ++ (some (replicate n none) ∷ [])

  -- The slots of the new chunk are free, and no other slot changes.
  slot-fresh_old : (j : ℕ) → j / n < length cs → slot n fresh j ≡ slot n cs j
  slot-fresh_old j h = rw (get_elem?-append_left cs (some (replicate n none) ∷ []) (j / n) h)

  slot-fresh_new : (j : ℕ) → j / n ≡ length cs → slot n fresh j ≡ some none
  slot-fresh_new j h = rw (
    h,
    get_elem?-append_last cs (some (replicate n none)),
    get_elem?-replicate {A = Option A} n (j % n) none (mod-lt j pos),
  )

  slot-fresh_past : (j : ℕ) → length cs < j / n → slot n fresh j ≡ none
  slot-fresh_past j h = rw (get_elem?-append_past cs (some (replicate n none)) (j / n) h)

  slot_past : (j : ℕ) → length cs ≤ j / n → slot n cs j ≡ none
  slot_past j h = rw (get_elem?_past cs (j / n) h)

  in_chunks : (k j : ℕ) → j / n < k → j < k * n
  in_chunks k j = (div-lt_iff_lt-mul pos).0

  past_chunks : (k j : ℕ) → k ≤ j / n → k * n ≤ j
  past_chunks k j h = elim (dec_lt j (k * n)) [
    | yes lt ↦ absurd (omega (arith, (div-lt_iff_lt-mul pos).1 lt))
    | no ge ↦ omega arith
  ]

  free_at-fresh :
      (j : ℕ) → free_at (slot n fresh j) ≡ within (length cs * n) n j + free_at (slot n cs j)
  free_at-fresh j = elim (dec_lt (j / n) (length cs)) [
    | yes old ↦ rw (slot-fresh_old j old) (ground (arith, in_chunks (length cs) j old))
    | no ge ↦ elim (ℕ_discrete (j / n) (length cs)) [
      | yes new ↦
          rw (slot-fresh_new j new, slot_past j (omega arith))
            (ground (
              arith,
              in_chunks (suc (length cs)) j (omega arith),
              past_chunks (length cs) j (omega arith),
              suc-mul (length cs) n,
            ))
      | no ne ↦
          rw (slot-fresh_past j (omega arith), slot_past j (omega arith))
            (ground (arith, past_chunks (suc (length cs)) j (omega arith), suc-mul (length cs) n))
    ]
  ]

  object-fresh : (j : ℕ) → object (slot n fresh j) ≡ object (slot n cs j)
  object-fresh j = elim (dec_lt (j / n) (length cs)) [
    | yes old ↦ rw (slot-fresh_old j old)
    | no ge ↦ elim (ℕ_discrete (j / n) (length cs)) [
      | yes new ↦ rw (slot-fresh_new j new, slot_past j (omega arith))
      | no ne ↦ rw (slot-fresh_past j (omega arith), slot_past j (omega arith))
    ]
  ]

  -- The stack that `grow` leaves when no position was free.
  abbrev pub grown : Pool A
  grown = record {
    chunks = fresh;
    empty_objs = push_positions n (length cs * n) (length cs * n + n - 1) (length cs * n) [];
  }

  pub grown-IsConsistent :
      IsConsistent n (record { chunks = cs; empty_objs = [] }) → IsConsistent n grown
  grown-IsConsistent (shaped, counted) = (
    All-append_last (Shaped n) cs _ shaped (length-replicate n none),
    λ j.
        count-push_positions n (length cs * n) (length cs * n + n - 1) (length cs * n) j []
          (omega arith)
        ∙ omega (arith, counted j, free_at-fresh j),
  )

  pub contents-grown :
      (j : ℕ) → contents n grown j ≡ contents n (record { chunks = cs; empty_objs = [] }) j
  contents-grown j = object-fresh j

  -- The first position of the new chunk is free.
  pub count-grown : 0 < count (length cs * n) grown.empty_objs
  count-grown = ground (
    arith,
    count-push_positions n (length cs * n) (length cs * n + n - 1) (length cs * n) (length cs * n)
        [] (omega arith),
  )
