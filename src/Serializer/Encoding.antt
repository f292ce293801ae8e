-- ===== src/Serializer/Encoding.antt =====
-- The bytes of a value, and that `amts_serialize` writes them.
use sdk_cp.Base.{
  ℕ, suc, ◌+◌, ◌-◌, ◌*◌, ◌/◌, ◌%◌, ◌^◌, ◌≤◌, ◌<◌, ◌≡◌, refl, arith, ap, ap₂, sym, ◌∙◌, u64, sub32,
  Bool, true, List, [], ◌∷◌, ◌++◌, append_assoc, append-nil, length, length-append, All, le→leb,
  lt→ltb, le→ltb,
}
use sdk_cp.Ws.Bytes.{le_bytes}
use sdk_cp.Serializer.{
  Layout, pod, wide, text, vec, El, Out, and_then, put_chars, put_object, put_all, amts_size,
  amts_serialize, sum_of,
}

-- The elements' bytes, one after the other.
abbrev pub concat_map {ℓ} : {A : Type ℓ} → (A → List ℕ) → List A → List ℕ
concat_map f [] = []
concat_map f (x ∷ xs) = f x ++ concat_map f xs

-- Objects as they are in memory; a container as its count, in eight bytes, and its elements.
unfoldable pub encoding : (l : Layout) → El l → List ℕ
encoding (pod n) v = v
encoding (wide n w) v = v
encoding (text w) v = le_bytes 8 (length v / w) ++ v
encoding (vec l) v = le_bytes 8 (length v) ++ concat_map (encoding l) v

-- A value of its type: an object has the bytes of its size, one at least, a string whole characters.
abbrev pub IsValue : (l : Layout) → El l → Type 0
IsValue (pod n) v = (0 < n) × (length v ≡ n)
IsValue (wide n w) v = (0 < n * w) × (length v ≡ n * w)
IsValue (text w) v = length v / w * w ≡ length v
IsValue (vec l) v = All (IsValue l) v

-- The size of the bytes, on numbers that do not wrap.
unfoldable pub bytes_of : (l : Layout) → El l → ℕ
bytes_of (pod n) v = n
bytes_of (wide n w) v = n * w
bytes_of (text w) v = 8 + length v / w * w
bytes_of (vec l) v = 8 + sum_of (bytes_of l) v

sum_of-eq :
    {A : Type 0} (f g : A → ℕ) (k : ℕ) (xs : List A)
    → sum_of g xs < k
    → ((x : A) → g x < k → f x ≡ g x)
    → sum_of f xs ≡ sum_of g xs
sum_of-eq f g k [] h e = refl
sum_of-eq f g k (x ∷ xs) h e = ap₂ ◌+◌ (e x (omega arith)) (sum_of-eq f g k xs (omega arith) e)

-- `amtsSize` is that size while it fits its `uint32_t`.
pub amts_size-bytes_of :
    (l : Layout) (v : El l) → bytes_of l v < 2 ^ 32 → amts_size l v ≡ bytes_of l v
unfolding amts_size bytes_of
amts_size-bytes_of (pod n) v h = omega arith
amts_size-bytes_of (wide n w) v h = omega arith
amts_size-bytes_of (text w) v h = omega arith
amts_size-bytes_of (vec l) v h =
    let same : sum_of (amts_size l) v ≡ sum_of (bytes_of l) v =
      sum_of-eq (amts_size l) (bytes_of l) (2 ^ 32) v (omega arith) (amts_size-bytes_of l) in
    omega (arith, same)

length-concat_map :
    {A : Type 0} (f : A → List ℕ) (g : A → ℕ) (P : A → Type 0) (xs : List A)
    → All P xs
    → ((x : A) → P x → length (f x) ≡ g x)
    → length (concat_map f xs) ≡ sum_of g xs
length-concat_map f g P [] h e = refl
length-concat_map f g P (x ∷ xs) h e =
    omega (arith, length-append (f x) (concat_map f xs), e x h.0, length-concat_map f g P xs h.1 e)

pub length-encoding : (l : Layout) (v : El l) → IsValue l v → length (encoding l v) ≡ bytes_of l v
unfolding encoding bytes_of
length-encoding (pod n) v h = h.1
length-encoding (wide n w) v h = h.1
length-encoding (text w) v h = omega (arith, length-append (le_bytes 8 (length v / w)) v)
length-encoding (vec l) v h = omega (
  arith,
  length-append (le_bytes 8 (length v)) (concat_map (encoding l) v),
  length-concat_map (encoding l) (bytes_of l) (IsValue l) v h (length-encoding l),
)

-- An output after some bytes.
abbrev pub advanced : List ℕ → ℕ → Out → Out
advanced bytes n o = record { written = o.written ++ bytes; size = o.size - n }

-- The answer of a write that succeeded.
abbrev accepted : List ℕ → ℕ → Bool × Out
accepted b k = (true, record { written = b; size = k })

put_object-fits :
    (bytes : List ℕ) (n : ℕ) (o : Out)
    → n ≤ o.size
    → o.size < 2 ^ 32
    → put_object bytes n o ≡ (true, advanced bytes n o)
put_object-fits bytes n o h small = rw (le→leb n o.size h) (ap (accepted (o.written ++ bytes)) less)
  where
    less : sub32 o.size n ≡ o.size - n
    less = omega arith

put_chars-fits :
    (v : List ℕ) (sz : ℕ) (o : Out)
    → sz ≡ length v
    → length v ≤ o.size
    → o.size < 2 ^ 32
    → put_chars v sz o ≡ (true, advanced v (length v) o)
put_chars-fits [] sz o e fits small =
    rw (e, le→ltb o.size 0 (omega arith)) (ap₂ accepted (sym (append-nil o.written)) (omega arith))
put_chars-fits (c ∷ v) sz o e fits small =
    rw (le→ltb o.size sz (omega arith), lt→ltb 0 sz (omega arith))
      (ap (accepted (o.written ++ (c ∷ v))) less)
  where
    less : sub32 o.size sz ≡ o.size - suc (length v)
    less = omega arith

put_all-fits :
    {A : Type 0} (f : A → Out → Bool × Out) (enc : A → List ℕ) (size : A → ℕ) (P : A → Type 0)
    (xs : List A) (o : Out)
    → All P xs
    → sum_of size xs ≤ o.size
    → o.size < 2 ^ 32
    → ((x : A) (o : Out)
        → P x
        → size x ≤ o.size
        → o.size < 2 ^ 32
        → f x o ≡ (true, advanced (enc x) (size x) o))
    → put_all f xs o ≡ (true, advanced (concat_map enc xs) (sum_of size xs) o)
put_all-fits f enc size P [] o h fits small e =
    ap₂ accepted (sym (append-nil o.written)) (omega arith)
put_all-fits f enc size P (x ∷ xs) o h fits small e =
    ap (λ r. and_then r (put_all f xs)) (e x o h.0 (omega arith) small)
    ∙ (put_all-fits f enc size P xs (advanced (enc x) (size x) o) h.1 (omega arith) (omega arith) e
        ∙ ap₂ accepted (append_assoc o.written (enc x) (concat_map enc xs)) (omega arith))

-- `amtsSerialize` of a value, with room for the bytes of `amtsSize`, succeeds, appends exactly the
-- reference encoding, and takes its length off the room.
pub amts_serialize-encoding :
    (l : Layout) (v : El l) (o : Out)
    → IsValue l v
    → bytes_of l v ≤ o.size
    → o.size < 2 ^ 32
    → amts_serialize l v o ≡ (true, advanced (encoding l v) (bytes_of l v) o)
unfolding amts_serialize encoding bytes_of
amts_serialize-encoding (pod n) v o h fits small =
    ap (λ k. put_object v k o) {x = n % 2 ^ 32} {y = n} (omega arith)
    ∙ put_object-fits v n o fits small
amts_serialize-encoding (wide n w) v o h fits small =
    ap (λ k. put_object v k o) {x = n * w % 2 ^ 32} {y = n * w} (omega arith)
    ∙ put_object-fits v (n * w) o fits small
amts_serialize-encoding (text w) v o h fits small =
    ap (λ r. and_then r (put_chars v (u64 (length v / w * w))))
      (put_object-fits (le_bytes 8 (length v / w)) 8 o (omega arith) small)
    ∙ (put_chars-fits v (u64 (length v / w * w)) (advanced (le_bytes 8 (length v / w)) 8 o)
          (omega arith) (omega arith) (omega arith)
        ∙ ap₂ accepted (append_assoc o.written (le_bytes 8 (length v / w)) v) (omega arith))
amts_serialize-encoding (vec l) v o h fits small =
    rw (amts_size-bytes_of (vec l) v (omega arith), le→ltb o.size (bytes_of (vec l) v) fits)
      (ap (λ r. and_then r (put_all (amts_serialize l) v))
          (put_object-fits (le_bytes 8 (length v)) 8 o (omega arith) small)
        ∙ (put_all-fits (amts_serialize l) (encoding l) (bytes_of l) (IsValue l) v
              (advanced (le_bytes 8 (length v)) 8 o) h (omega arith) (omega arith)
              (amts_serialize-encoding l)
            ∙ ap₂ accepted
                (append_assoc o.written (le_bytes 8 (length v)) (concat_map (encoding l) v))
                (omega arith)))
