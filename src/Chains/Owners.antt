-- ===== src/Chains/Owners.antt =====
-- Counting the owners of a chain in the lists.
use sdk_cp.Base.{
  true≢false, ℕ, ◌+◌, ◌≤◌, ◌<◌, ◌==◌, if◌then◌else◌, Bool, true, false, List, [], ◌∷◌, ◌++◌, Option,
  none, some, ◌≡◌, sym, ap, ◌∙◌, arith, inl, inr, some_eq, none≢some, Bool-cases,
}
use sdk_cp.Base.Counts.{one, count, one_self, one_ne, one_or_none}
use sdk_cp.Chains.{find_key, erase_key, pop_chain, count_keys, count_tasks}

count_tasks-append {ℓ} :
    {T : Type ℓ} (j : ℕ) (xs ys : List (ℕ × T))
    → count_tasks j (xs ++ ys) ≡ count_tasks j xs + count_tasks j ys
count_tasks-append j [] ys = omega arith
count_tasks-append j ((i, t) ∷ xs) ys = omega (arith, count_tasks-append j xs ys)

pub count_tasks_middle {ℓ} :
    {T : Type ℓ} (j i : ℕ) (t : T) (l xs ys : List (ℕ × T))
    → l ≡ xs ++ ((i, t) ∷ ys)
    → count_tasks j l ≡ one j i + count_tasks j (xs ++ ys)
count_tasks_middle j i t l xs ys e =
    omega (
      arith,
      ap (count_tasks j) e,
      count_tasks-append j xs ((i, t) ∷ ys),
      count_tasks-append j xs ys,
    )

-- A key that is found is counted, and erasing only lowers the counts.
find_key_count : (key : ℕ) (l : List (ℕ × ℕ)) (i : ℕ) → find_key key l ≡ some i → 0 < count_keys i l
find_key_count key [] i e = ground arith
find_key_count key ((k, i') ∷ l) i e = elim (Bool-cases (k == key)) [
  | inl t ↦ omega (
    arith,
    one_self i,
    ap (one i) (some_eq (ap (λ b. if b then some i' else find_key key l) (sym t) ∙ e)),
  )
  | inr f ↦
      omega (
        arith,
        find_key_count key l i (ap (λ b. if b then some i' else find_key key l) (sym f) ∙ e),
      )
]

pub one_le_find_key :
    (j key : ℕ) (l : List (ℕ × ℕ)) (i : ℕ) → find_key key l ≡ some i → one j i ≤ count_keys j l
one_le_find_key j key l i e = elim (one_or_none j i) [
  | inl same ↦ omega (
    arith,
    find_key_count key l i e,
    ap (λ k. count_keys k l) same,
    ap (λ k. one k i) (sym same),
    one_self i,
  )
  | inr (ne, z) ↦ omega (arith, z)
]

pub count_keys-erase_key :
    (j key : ℕ) (l : List (ℕ × ℕ)) → count_keys j (erase_key key l) ≤ count_keys j l
count_keys-erase_key j key [] = omega arith
count_keys-erase_key j key ((k, i) ∷ l) = elim (Bool-cases (k == key)) [
  | inl t ↦ rw (t) (omega (arith, count_keys-erase_key j key l))
  | inr f ↦ rw (f) (omega (arith, count_keys-erase_key j key l))
]

abbrev answer : Option ℕ → List ℕ → Option ℕ × List ℕ
answer o l = (o, l)

-- What `pop_chain` drops is dead, and what it answers was there.
pub pop_chain-some :
    (live : ℕ → Bool) (l : List ℕ) (i : ℕ) (rest : List ℕ) (j : ℕ)
    → pop_chain live l ≡ (some i, rest)
    → (one j i + count j rest ≤ count j l)
      × (live i ≡ true)
      × (live j ≡ true → one j i + count j rest ≡ count j l)
pop_chain-some live [] i rest j e = ground arith
pop_chain-some live (x ∷ l) i rest j e = elim (Bool-cases (live x)) [
  | inl t ↦ found t (ap (λ b. if b then answer (some x) l else pop_chain live l) (sym t) ∙ e)
  | inr f ↦ skipped f (
      pop_chain-some live l i rest j
        (ap (λ b. if b then answer (some x) l else pop_chain live l) (sym f) ∙ e))
]
  where
    found :
        live x ≡ true
        → answer (some x) l ≡ answer (some i) rest
        → (one j i + count j rest ≤ one j x + count j l)
          × (live i ≡ true)
          × (live j ≡ true → one j i + count j rest ≡ one j x + count j l)
    found t same = (
      omega (arith, ap (one j) here, ap (count j) tail),
      ap live (sym here) ∙ t,
      λ h. omega (arith, ap (one j) here, ap (count j) tail),
    )
      where
        here : x ≡ i
        here = some_eq (ap (λ (r : Option ℕ × List ℕ). r.0) same)

        tail : l ≡ rest
        tail = ap (λ (r : Option ℕ × List ℕ). r.1) same

    skipped :
        live x ≡ false
        → (one j i + count j rest ≤ count j l)
          × (live i ≡ true)
          × (live j ≡ true → one j i + count j rest ≡ count j l)
        → (one j i + count j rest ≤ one j x + count j l)
          × (live i ≡ true)
          × (live j ≡ true → one j i + count j rest ≡ one j x + count j l)
    skipped f (below, lives, same) = (
      omega (arith, below),
      lives,
      λ h. omega (arith, same h, one_ne j x (λ e. true≢false (sym h ∙ ap live (sym e) ∙ f))),
    )

pub pop_chain-none :
    (live : ℕ → Bool) (l rest : List ℕ) (j : ℕ)
    → pop_chain live l ≡ (none, rest)
    → (count j rest ≤ count j l) × (live j ≡ true → count j rest ≡ count j l)
pop_chain-none live [] rest j e = (omega (arith, nothing), λ h. omega (arith, nothing))
  where
    nothing : 0 ≡ count j rest
    nothing = ap (λ (r : Option ℕ × List ℕ). count j r.1) e
pop_chain-none live (x ∷ l) rest j e = elim (Bool-cases (live x)) [
  | inl t ↦ absurd (
      none≢some (
        sym (
          ap (λ (r : Option ℕ × List ℕ). r.0)
            (ap (λ b. if b then answer (some x) l else pop_chain live l) (sym t) ∙ e))))
  | inr f ↦ skipped f (
      pop_chain-none live l rest j
        (ap (λ b. if b then answer (some x) l else pop_chain live l) (sym f) ∙ e))
]
  where
    skipped :
        live x ≡ false
        → (count j rest ≤ count j l) × (live j ≡ true → count j rest ≡ count j l)
        → (count j rest ≤ one j x + count j l)
          × (live j ≡ true → count j rest ≡ one j x + count j l)
    skipped f (below, same) = (
      omega (arith, below),
      λ h. omega (arith, same h, one_ne j x (λ e. true≢false (sym h ∙ ap live (sym e) ∙ f))),
    )
