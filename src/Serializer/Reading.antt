-- ===== src/Serializer/Reading.antt =====
-- `amts_deserialize` reads back what `amts_serialize` writes.
use sdk_cp.Base.{
  ℕ, zero, suc, ◌+◌, ◌-◌, ◌*◌, ◌/◌, ◌%◌, ◌^◌, ◌≤◌, ◌<◌, ◌≡◌, refl, arith, ap, ◌∙◌, u64, Bool, true,
  List, [], ◌∷◌, ◌++◌, append_assoc, length, All, le→leb, lt→ltb, le→ltb, some, read_bytes_length,
  drop-append_length,
}
use native.Mathlib.Nat.{div-le_self, mul-suc}
use sdk_cp.Ws.Bytes.{le_bytes}
use sdk_cp.Serializer.{
  Layout, pod, wide, text, vec, El, fresh, In, Read, get_object, get_count, get_all, get_chars,
  resize, amts_deserialize, sum_of, Out, amts_serialize,
}
use sdk_cp.Serializer.Encoding.{concat_map, encoding, IsValue, bytes_of, amts_serialize-encoding}

-- The answer of a read that succeeded.
abbrev pub read_on : {A : Type 0} → A → List ℕ → ℕ → Read A
read_on v rest size = some (true, v, record { bytes = rest; size = size })

get_object-front :
    (test n : ℕ) (old v rest : List ℕ) (size : ℕ)
    → length v ≡ n
    → test ≤ size
    → n ≤ size
    → size < 2 ^ 32
    → get_object test n old (record { bytes = v ++ rest; size = size }) ≡ read_on v rest (size - n)
get_object-front test n old v rest size e ht hn small =
    rw (le→leb test size ht, ← e, read_bytes_length v rest, drop-append_length v rest)
      (ap (read_on v rest) (omega arith))

pub get_count-front :
    (n : ℕ) (rest : List ℕ) (size : ℕ)
    → n < 2 ^ 64
    → 8 ≤ size
    → size < 2 ^ 32
    → get_count (record { bytes = le_bytes 8 n ++ rest; size = size }) ≡ read_on n rest (size - 8)
get_count-front n rest size hn h small =
    rw (le→ltb size 8 h, get_object-front 8 8 [] (le_bytes 8 n) rest size refl h h small)
      (ap (λ k. read_on k rest (size - 8)) (omega arith))

get_all-front :
    {A : Type 0} (f : A → In → Read A) (a : A) (enc : A → List ℕ) (bytes : A → ℕ) (P : A → Type 0)
    (vs : List A) (rest : List ℕ) (size : ℕ)
    → All P vs
    → sum_of bytes vs ≤ size
    → size < 2 ^ 32
    → ((v : A) (rest : List ℕ) (size : ℕ)
        → P v
        → bytes v ≤ size
        → size < 2 ^ 32
        → f a (record { bytes = enc v ++ rest; size = size }) ≡ read_on v rest (size - bytes v))
    → get_all f
        (resize a (length vs) [])
        (record { bytes = concat_map enc vs ++ rest; size = size })
      ≡ read_on vs rest (size - sum_of bytes vs)
get_all-front f a enc bytes P [] rest size h fits small e = ap (read_on [] rest) (omega arith)
get_all-front f a enc bytes P (v ∷ vs) rest size h fits small e =
    rw
      (
        append_assoc (enc v) (concat_map enc vs) rest,
        e v (concat_map enc vs ++ rest) size h.0 (omega arith) small,
        get_all-front f a enc bytes P vs rest (size - bytes v) h.1 (omega arith) (omega arith) e,
      )
      (ap (read_on (v ∷ vs) rest) (omega arith))

bytes_of_pos : (l : Layout) (v : El l) → IsValue l v → 0 < bytes_of l v
unfolding bytes_of
bytes_of_pos (pod n) v h = h.0
bytes_of_pos (wide n w) v h = h.0
bytes_of_pos (text w) v h = omega arith
bytes_of_pos (vec l) v h = omega arith

length-le-sum_of :
    {A : Type 0} (f : A → ℕ) (P : A → Type 0) (xs : List A)
    → All P xs
    → ((x : A) → P x → 0 < f x)
    → length xs ≤ sum_of f xs
length-le-sum_of f P [] h e = omega arith
length-le-sum_of f P (x ∷ xs) h e = omega (arith, e x h.0, length-le-sum_of f P xs h.1 e)

le-times : (n w : ℕ) {size : ℕ} → 0 < n * w → n * w ≤ size → n ≤ size
le-times n zero pos fits = absurd (omega arith)
le-times n (suc w) pos fits = omega (arith, mul-suc n w)

module _ (room : Layout → ℕ → Bool)
    (roomy : (k : Layout) (n : ℕ) → n < 2 ^ 32 → room k n ≡ true) where
  get_chars-sized :
      (w count : ℕ) (v rest : List ℕ) (size : ℕ)
      → u64 (count * w) ≡ length v
      → room (text w) count ≡ true
      → length v ≤ size
      → size < 2 ^ 32
      → get_chars room w count [] (record { bytes = v ++ rest; size = size })
        ≡ read_on v rest (size - length v)
  get_chars-sized w count [] rest size e r fits small =
      rw (get_chars, e, le→ltb size 0 (omega arith)) (ap (read_on [] rest) (omega arith))
  get_chars-sized w count (c ∷ v) rest size e r fits small =
      rw
        (
          get_chars,
          e,
          le→ltb size (suc (length v)) fits,
          lt→ltb 0 (suc (length v)) (omega arith),
          r,
          read_bytes_length (c ∷ v) rest,
          drop-append_length v rest,
        )
        (ap (read_on (c ∷ v) rest) (omega arith))

  get_chars-front :
      (w : ℕ) (v rest : List ℕ) (size : ℕ)
      → IsValue (text w) v
      → length v ≤ size
      → size < 2 ^ 32
      → get_chars room w (length v / w) [] (record { bytes = v ++ rest; size = size })
        ≡ read_on v rest (size - length v)
  get_chars-front w v rest size h fits small =
      get_chars-sized w (length v / w) v rest size (omega arith)
        (roomy (text w) (length v / w) (omega (arith, div-le_self (length v) w))) fits small

  -- An encoding in front of the input is read and taken off it.
  pub amts_deserialize-encoding :
      (l : Layout) (v : El l) (rest : List ℕ) (size : ℕ)
      → IsValue l v
      → bytes_of l v ≤ size
      → size < 2 ^ 32
      → amts_deserialize room l (fresh l) (record { bytes = encoding l v ++ rest; size = size })
        ≡ read_on v rest (size - bytes_of l v)
  unfolding amts_deserialize encoding bytes_of
  amts_deserialize-encoding (pod n) v rest size h fits small =
      ap (λ k. get_object k k (fresh (pod n)) (record { bytes = v ++ rest; size = size }))
        {x = n % 2 ^ 32} {y = n} (omega arith)
      ∙ get_object-front n n (fresh (pod n)) v rest size h.1 fits fits small
  amts_deserialize-encoding (wide n w) v rest size h fits small =
      get_object-front n (n * w) (fresh (wide n w)) v rest size h.1 (le-times n w h.0 fits) fits
        small
  amts_deserialize-encoding (text w) v rest size h fits small =
      rw
        (
          amts_deserialize,
          append_assoc (le_bytes 8 (length v / w)) v rest,
          get_count-front (length v / w) (v ++ rest) size (omega arith) (omega arith) small,
          get_chars-front w v rest (size - 8) h (omega arith) (omega arith),
        )
        (ap (read_on v rest) (omega arith))
  amts_deserialize-encoding (vec l) v rest size h fits small =
      let few : length v ≤ sum_of (bytes_of l) v =
        length-le-sum_of (bytes_of l) (IsValue l) v h (bytes_of_pos l) in
      rw
        (
          amts_deserialize,
          append_assoc (le_bytes 8 (length v)) (concat_map (encoding l) v) rest,
          get_count-front (length v) (concat_map (encoding l) v ++ rest) size (omega arith)
              (omega arith) small,
          roomy (vec l) (length v) (omega arith),
          get_all-front (amts_deserialize room l) (fresh l) (encoding l) (bytes_of l) (IsValue l) v
              rest (size - 8) h (omega arith) (omega arith) (amts_deserialize-encoding l),
        )
        (ap (read_on v rest) (omega arith))

  -- What `amtsSerialize` writes of a value, into an empty buffer with room for it, `amtsDeserialize`
  -- reads back into an object as it is constructed, whatever follows in the input, and leaves the
  -- input behind it. The value may be any nesting of vectors over POD types, strings and `wchar_t`
  -- arrays; the sizes are those of a `uint32_t`, and containers can be resized to every count below
  -- 2 ^ 32.
  pub amts_deserialize-amts_serialize :
      (l : Layout) (v : El l) (rest : List ℕ) (size left : ℕ)
      → IsValue l v
      → bytes_of l v ≤ size
      → size < 2 ^ 32
      → bytes_of l v + left < 2 ^ 32
      → (o : Out) × (amts_serialize l v (record { written = []; size = size }) ≡ (true, o))
        × (amts_deserialize room l
              (fresh l)
              (record { bytes = o.written ++ rest; size = bytes_of l v + left })
            ≡ read_on v rest left)
  amts_deserialize-amts_serialize l v rest size left h fits small total = (
    _,
    amts_serialize-encoding l v (record { written = []; size = size }) h fits small,
    amts_deserialize-encoding l v rest (bytes_of l v + left) h (omega arith) total
        ∙ ap (read_on v rest) (omega arith),
  )
