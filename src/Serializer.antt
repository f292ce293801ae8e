-- ===== src/Serializer.antt =====
-- tools/binary_serializer.hpp: values to bytes and back, for the types that the header knows by
-- itself. `wchar_t` arrays are those of a build without SERIALIZER_COMPACT_STR_ARRAYS.
pub mod Encoding
pub mod Reading
pub mod Limits
mod Tests
use sdk_cp.Base.{
  ℕ, zero, suc, ◌+◌, ◌-◌, ◌*◌, ◌/◌, ◌^◌, u32, u64, sub32, Bool, true, false, if◌then◌else◌, ltb,
  leb, ◌==◌, Option, none, some, List, [], ◌∷◌, ◌++◌, length, replicate, take, drop, read_bytes,
  ◌>>=◌,
}
use sdk_cp.Ws.Bytes.{le_bytes, le_value}

-- The types: POD of a size, `wchar_t` arrays of a length and a character size, strings of a character
-- size, and vectors.
pub data Layout : Type 0 where
  pod : ℕ → Layout
  wide : ℕ → ℕ → Layout
  text : ℕ → Layout
  vec : Layout → Layout

-- The values: the bytes of an object, of an array and of a string, and the elements of a vector.
abbrev pub El : Layout → Type 0
El (pod n) = List ℕ
El (wide n w) = List ℕ
El (text w) = List ℕ
El (vec l) = List (El l)

-- A value as it is constructed.
abbrev pub fresh : (l : Layout) → El l
fresh (pod n) = replicate n 0
fresh (wide n w) = replicate (n * w) 0
fresh (text w) = []
fresh (vec l) = []

-- The output: what is written, and `size`, the room that is left.
pub record Out : Type 0 where
  pub written : List ℕ
  pub size : ℕ

-- The input: the bytes from `buffer` on, and `size`.
pub record In : Type 0 where
  pub bytes : List ℕ
  pub size : ℕ

abbrev pub sum_of {ℓ} : {A : Type ℓ} → (A → ℕ) → List A → ℕ
sum_of f [] = 0
sum_of f (x ∷ xs) = f x + sum_of f xs

-- `amtsSize(t)`; the sum is on `uint64_t` and the answer a `uint32_t`.
unfoldable pub amts_size : (l : Layout) → El l → ℕ
amts_size (pod n) v = u32 n
amts_size (wide n w) v = u32 (n * w)
amts_size (text w) v = u32 (8 + length v / w * w)
amts_size (vec l) v = u32 (8 + sum_of (amts_size l) v)

-- `memcpy(buffer, ..., n); buffer += n; size -= n;`
abbrev pub put : List ℕ → ℕ → Out → Out
put bytes n o = record { written = o.written ++ bytes; size = sub32 o.size n }

-- `Core<T, 1>::Serializer::proc`, and the same for an array.
abbrev pub put_object : List ℕ → ℕ → Out → Bool × Out
put_object bytes n o = if leb n o.size then (true, put bytes n o) else (false, o)

-- `if (!a) return false; b`.
abbrev pub and_then : Bool × Out → (Out → Bool × Out) → Bool × Out
and_then (true, o) k = k o
and_then (false, o) k = (false, o)

-- The characters of a string, behind its count.
abbrev pub put_chars : List ℕ → ℕ → Out → Bool × Out
put_chars v sz o =
    if ltb o.size sz then (false, o) else if ltb 0 sz then (true, put v sz o) else (true, o)

-- The loop over the elements.
abbrev pub put_all {ℓ} : {A : Type ℓ} → (A → Out → Bool × Out) → List A → Out → Bool × Out
put_all f [] o = (true, o)
put_all f (x ∷ xs) o = and_then (f x o) (put_all f xs)

-- `amtsSerialize(t, buffer, size)`.
unfoldable pub amts_serialize : (l : Layout) → El l → Out → Bool × Out
unfolding amts_size
amts_serialize (pod n) v o = put_object v (u32 n) o
amts_serialize (wide n w) v o = put_object v (u32 (n * w)) o
amts_serialize (text w) v o =
    and_then (put_object (le_bytes 8 (length v / w)) 8 o) (put_chars v (u64 (length v / w * w)))
amts_serialize (vec l) v o =
    if ltb o.size (amts_size (vec l) v)
    then (false, o)
    else and_then (put_object (le_bytes 8 (length v)) 8 o) (put_all (amts_serialize l) v)

-- What a reader answers: `none` is a read past the bytes, then the `bool`, the object and the input.
abbrev pub Read : Type 0 → Type 0
Read A = Option (Bool × A × In)

-- `if (size >= test) memcpy(&t, buffer, n); buffer += n; size -= n;`
abbrev pub get_object : ℕ → ℕ → List ℕ → In → Read (List ℕ)
get_object test n old i =
    if leb test i.size
    then (read_bytes n i.bytes >>= λ v.
        some (true, v, record { bytes = drop n i.bytes; size = sub32 i.size n }))
    else some (false, old, i)

-- The count in front of a container.
abbrev pub get_count : In → Read ℕ
get_count i =
    if ltb i.size 8
    then some (false, 0, i)
    else (get_object 8 8 [] i >>= λ (ok, bytes, i'). some (ok, le_value bytes, i'))

-- `t.resize(n)`.
abbrev pub resize {ℓ} : {A : Type ℓ} → A → ℕ → List A → List A
resize a zero xs = []
resize a (suc n) [] = a ∷ resize a n []
resize a (suc n) (x ∷ xs) = x ∷ resize a n xs

abbrev pub get_all : {A : Type 0} → (A → In → Read A) → List A → In → Read (List A)
get_all f [] i = some (true, [], i)
get_all f (x ∷ xs) i = f x i >>= λ (ok, v, i'). elim ok [
  | false ↦ some (false, v ∷ xs, i')
  | true ↦ (get_all f xs i' >>= λ (ok', vs, i''). some (ok', v ∷ vs, i''))
]

-- `amtsDeserialize(t, buffer, size)` over the old value of `t`. `room` says whether a container of a
-- type can be resized to so many elements; if not, `resize` throws and the function answers false.
module _ (room : Layout → ℕ → Bool) where
  -- The characters of a string, behind its count.
  abbrev pub get_chars : ℕ → ℕ → List ℕ → In → Read (List ℕ)
  get_chars w count old i =
      let sz = u64 (count * w) in
      if ltb i.size sz
      then some (false, old, i)
      else if ltb 0 sz
      then (if room (text w) count
          then (read_bytes sz i.bytes >>= λ v.
              some (true, v, record { bytes = drop sz i.bytes; size = sub32 i.size sz }))
          else some (false, old, i))
      else some (true, old, i)

  unfoldable pub amts_deserialize : (l : Layout) → El l → In → Read (El l)
  amts_deserialize (pod n) old i = get_object (u32 n) (u32 n) old i
  amts_deserialize (wide n w) old i = get_object n (n * w) old i
  amts_deserialize (text w) old i = get_count i >>= λ (ok, count, i'). elim ok [
    | false ↦ some (false, old, i')
    | true ↦ get_chars w count old i'
  ]
  amts_deserialize (vec l) old i = get_count i >>= λ (ok, count, i'). elim ok [
    | false ↦ some (false, old, i')
    | true ↦
        if room (vec l) count
        then get_all (amts_deserialize l) (resize (fresh l) count old) i'
        else some (false, old, i')
  ]
