-- ===== src/Serializer/Limits.antt =====
-- What `amts_serialize` and `amts_deserialize` do at the ends of their buffers.
use sdk_cp.Base.{
  ℕ, zero, suc, ◌-◌, ◌*◌, ◌/◌, ◌%◌, ◌^◌, ◌≤◌, ◌<◌, ◌≡◌, refl, arith, ap, ◌∙◌, u32, u64, sub32, Bool,
  true, false, if◌then◌else◌, ltb, List, [], ◌∷◌, ◌++◌, length, length-drop, le→leb, lt→leb, lt→ltb,
  le→ltb, dec_lt, dec_le, some, none, read_bytes, drop, ◌>>=◌, Bool-cases, inl, inr,
}
use native.Mathlib.Nat.{zero-div}
use sdk_cp.Ws.Bytes.{le_value}
use sdk_cp.Serializer.{
  Layout, pod, wide, text, vec, El, fresh, In, Read, get_object, get_count, get_all, get_chars,
  resize, amts_deserialize, Out, amts_serialize,
}
use sdk_cp.Serializer.Encoding.{encoding, IsValue, bytes_of, amts_size-bytes_of}
use sdk_cp.Serializer.Reading.{read_on, get_count-front}

-- Without room for the bytes of `amtsSize`, `amtsSerialize` answers false.
pub amts_serialize_short :
    (l : Layout) (v : El l) (o : Out)
    → IsValue l v
    → bytes_of l v < 2 ^ 32
    → o.size < bytes_of l v
    → (amts_serialize l v o).0 ≡ false
unfolding amts_serialize bytes_of
amts_serialize_short (pod n) v o h small short = rw (lt→leb (n % 2 ^ 32) o.size (omega arith))
amts_serialize_short (wide n w) v o h small short =
    rw (lt→leb (n * w % 2 ^ 32) o.size (omega arith))
amts_serialize_short (text w) v o h small short = elim (dec_lt o.size 8) [
  | yes lt ↦ rw (lt→leb 8 o.size lt)
  | no ge ↦ rw (
    le→leb 8 o.size (omega arith),
    lt→ltb (sub32 o.size 8) (u64 (length v / w * w)) (omega arith),
  )
]
amts_serialize_short (vec l) v o h small short =
    rw (amts_size-bytes_of (vec l) v small, lt→ltb o.size (bytes_of (vec l) v) short)

-- The types without an array of characters.
abbrev pub HasNoArray : Layout → Type 0
HasNoArray (pod n) = Unit {0}
HasNoArray (wide n w) = ⊥
HasNoArray (text w) = Unit {0}
HasNoArray (vec l) = HasNoArray l

-- An input that is as long as its size says, within a `uint32_t`.
abbrev pub IsInput : In → Type 0
IsInput i = (length i.bytes ≡ i.size) × (i.size < 2 ^ 32)

-- A read that is defined and leaves such an input, no longer than before.
abbrev pub StaysWithin : {A : Type 0} → In → Read A → Type 0
StaysWithin {A = A} i r =
    (ok : Bool) × (v : A) × (i' : In) × (r ≡ some (ok, v, i')) × IsInput i' × (i'.size ≤ i.size)

read_bytes-some : (n : ℕ) (bs : List ℕ) → n ≤ length bs → (v : List ℕ) × (read_bytes n bs ≡ some v)
read_bytes-some zero bs h = ([], refl)
read_bytes-some (suc n) [] h = absurd (omega arith)
read_bytes-some (suc n) (b ∷ bs) h =
    let (v, e) = read_bytes-some n bs (omega arith) in (b ∷ v, rw e)

read_bytes-none : (n : ℕ) (bs : List ℕ) → length bs < n → read_bytes n bs ≡ none
read_bytes-none zero bs h = absurd (omega arith)
read_bytes-none (suc n) [] h = refl
read_bytes-none (suc n) (b ∷ bs) h = rw (read_bytes-none n bs (omega arith))

taken-StaysWithin :
    (n : ℕ) (i : In)
    → IsInput i
    → n ≤ i.size
    → StaysWithin i (
        read_bytes n i.bytes >>= λ v.
        some (true, v, record { bytes = drop n i.bytes; size = sub32 i.size n }))
taken-StaysWithin n i h fits =
    let (v, e) = read_bytes-some n i.bytes (omega (arith, h.0)) in
    (
      true,
      v,
      record { bytes = drop n i.bytes; size = sub32 i.size n },
      rw e,
      (omega (arith, length-drop n i.bytes, h.0, h.1), omega arith),
      omega (arith, h.1),
    )

-- An answer that takes nothing.
stay : {A : Type 0} (ok : Bool) (v : A) (i : In) → IsInput i → StaysWithin i (some (ok, v, i))
stay ok v i h = (ok, v, i, refl, h, omega arith)

get_object-StaysWithin :
    (n : ℕ) (old : List ℕ) (i : In) → IsInput i → StaysWithin i (get_object n n old i)
get_object-StaysWithin n old i h = elim (dec_le n i.size) [
  | no short ↦ rw (lt→leb n i.size (omega arith)) (stay false old i h)
  | yes fits ↦ rw (le→leb n i.size fits) (taken-StaysWithin n i h fits)
]

bind-StaysWithin :
    {A B : Type 0} (i : In) (m : Read A) (k : Bool → A → In → Read B)
    → StaysWithin i m
    → ((ok : Bool) (v : A) (i' : In) → IsInput i' → StaysWithin i' (k ok v i'))
    → StaysWithin i (m >>= λ (ok, v, i'). k ok v i')
bind-StaysWithin i m k (ok, v, i1, e, h1, le1) next =
    let (ok2, v2, i2, e2, h2, le2) = next ok v i1 h1 in
    (ok2, v2, i2, ap (λ r. r >>= λ (ok, v, i'). k ok v i') e ∙ e2, h2, omega arith)

get_count-StaysWithin : (i : In) → IsInput i → StaysWithin i (get_count i)
get_count-StaysWithin i h = elim (dec_lt i.size 8) [
  | yes lt ↦ rw (lt→ltb i.size 8 lt) (stay false 0 i h)
  | no ge ↦ rw (le→ltb i.size 8 (omega arith)) (
      bind-StaysWithin i (get_object 8 8 [] i) (λ ok bytes i'. some (ok, le_value bytes, i'))
        (get_object-StaysWithin 8 [] i h) (λ ok bytes i' h'. stay ok (le_value bytes) i' h'))
]

get_all-StaysWithin :
    {A : Type 0} (f : A → In → Read A)
    → ((x : A) (i : In) → IsInput i → StaysWithin i (f x i))
    → (xs : List A) (i : In) → IsInput i
    → StaysWithin i (get_all f xs i)
get_all-StaysWithin f each [] i h = stay true [] i h
get_all-StaysWithin {A = A} f each (x ∷ xs) i h =
    bind-StaysWithin i (f x i) next (each x i h) (next_within (get_all-StaysWithin f each xs))
  where
    next : Bool → A → In → Read (List A)
    next ok v i' = elim ok [
      | false ↦ some (false, v ∷ xs, i')
      | true ↦ (get_all f xs i' >>= λ (ok', vs, i''). some (ok', v ∷ vs, i''))
    ]

    next_within :
        ((i : In) → IsInput i → StaysWithin i (get_all f xs i))
        → (ok : Bool) (v : A) (i' : In) → IsInput i'
        → StaysWithin i' (next ok v i')
    next_within others false v i' h' = stay false (v ∷ xs) i' h'
    next_within others true v i' h' =
        bind-StaysWithin i' (get_all f xs i') (λ ok vs i''. some (ok, v ∷ vs, i'')) (others i' h')
          (λ ok vs i'' h''. stay ok (v ∷ vs) i'' h'')

module _ (room : Layout → ℕ → Bool) where
  get_chars-StaysWithin :
      (w count : ℕ) (old : List ℕ) (i : In)
      → IsInput i
      → StaysWithin i (get_chars room w count old i)
  get_chars-StaysWithin w count old i h = sized (u64 (count * w))
    where
      sized :
          (sz : ℕ)
          → StaysWithin i (
              if ltb i.size sz
              then some (false, old, i)
              else if ltb 0 sz
              then (if room (text w) count
                  then (read_bytes sz i.bytes >>= λ v.
                      some (true, v, record { bytes = drop sz i.bytes; size = sub32 i.size sz }))
                  else some (false, old, i))
              else some (true, old, i))
      sized sz = elim (dec_lt i.size sz) [
        | yes lt ↦ rw (lt→ltb i.size sz lt) (stay false old i h)
        | no ge ↦ elim (dec_lt 0 sz) [
          | no zero_size ↦
              rw (le→ltb i.size sz (omega arith), le→ltb 0 sz (omega arith)) (stay true old i h)
          | yes pos ↦ elim (Bool-cases (room (text w) count)) [
            | inr full ↦
                rw (le→ltb i.size sz (omega arith), lt→ltb 0 sz pos, full) (stay false old i h)
            | inl fits ↦
                rw (le→ltb i.size sz (omega arith), lt→ltb 0 sz pos, fits)
                  (taken-StaysWithin sz i h (omega arith))
          ]
        ]
      ]

  -- Reading is safe. On an input as long as its size says, `amtsDeserialize` of any type without a
  -- `wchar_t` array, over any old value, reads nothing past the input, and leaves an input that is
  -- again as long as its size says, whatever the bytes are and whichever containers can be resized.
  pub amts_deserialize-StaysWithin :
      (l : Layout) (old : El l) (i : In)
      → HasNoArray l
      → IsInput i
      → StaysWithin i (amts_deserialize room l old i)
  unfolding amts_deserialize
  amts_deserialize-StaysWithin (pod n) old i a h = get_object-StaysWithin (u32 n) old i h
  amts_deserialize-StaysWithin (wide n w) old i a h = absurd a
  amts_deserialize-StaysWithin (text w) old i a h =
      bind-StaysWithin i (get_count i) next (get_count-StaysWithin i h) next_within
    where
      next : Bool → ℕ → In → Read (List ℕ)
      next ok count i' = elim ok [
        | false ↦ some (false, old, i')
        | true ↦ get_chars room w count old i'
      ]

      next_within :
          (ok : Bool) (count : ℕ) (i' : In) → IsInput i' → StaysWithin i' (next ok count i')
      next_within false count i' h' = stay false old i' h'
      next_within true count i' h' = get_chars-StaysWithin w count old i' h'
  amts_deserialize-StaysWithin (vec l) old i a h =
      bind-StaysWithin i (get_count i) next (get_count-StaysWithin i h)
        (next_within (λ x i'' h''. amts_deserialize-StaysWithin l x i'' a h''))
    where
      next : Bool → ℕ → In → Read (El (vec l))
      next ok count i' = elim ok [
        | false ↦ some (false, old, i')
        | true ↦
            if room (vec l) count
            then get_all (amts_deserialize room l) (resize (fresh l) count old) i'
            else some (false, old, i')
      ]

      next_within :
          ((x : El l) (i : In) → IsInput i → StaysWithin i (amts_deserialize room l x i))
          → (ok : Bool) (count : ℕ) (i' : In) → IsInput i'
          → StaysWithin i' (next ok count i')
      next_within each false count i' h' = stay false old i' h'
      next_within each true count i' h' = elim (Bool-cases (room (vec l) count)) [
        | inr full ↦ rw full (stay false old i' h')
        | inl fits ↦
            rw fits (
              get_all-StaysWithin (amts_deserialize room l) each (resize (fresh l) count old) i' h')
      ]

  -- A string of no characters does not replace the old value: after the count 0, `amtsDeserialize`
  -- succeeds and leaves the string as it was before.
  pub amts_deserialize_stale :
      (w : ℕ) (old rest : List ℕ) (size : ℕ)
      → 8 ≤ size
      → size < 2 ^ 32
      → amts_deserialize room
          (text w)
          old
          (record { bytes = encoding (text w) [] ++ rest; size = size })
        ≡ read_on old rest (size - 8)
  unfolding amts_deserialize encoding
  amts_deserialize_stale w old rest size h small = rw (
    zero-div w,
    get_count-front 0 rest size (omega arith) h small,
    get_chars,
    nothing,
    le→ltb (size - 8) 0 (omega arith),
  )
    where
      nothing : u64 (0 * w) ≡ 0
      nothing = omega arith

  -- A `wchar_t` array is read on a size that counts its characters and not its bytes: with an input
  -- of fewer bytes than the array has, but no fewer than its characters, the read goes past the end.
  pub amts_deserialize_overrun :
      (n w : ℕ) (old : List ℕ) (i : In)
      → length i.bytes ≡ i.size
      → n ≤ i.size
      → i.size < n * w
      → amts_deserialize room (wide n w) old i ≡ none
  unfolding amts_deserialize
  amts_deserialize_overrun n w old i h fits short =
      rw (le→leb n i.size fits, read_bytes-none (n * w) i.bytes (omega arith))
