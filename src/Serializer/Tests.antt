-- ===== src/Serializer/Tests.antt =====
-- The theorems on the serializer at a vector of two strings.
use sdk_cp.Base.{ℕ, ◌+◌, ◌≡◌, refl, arith, Bool, true, [], ◌∷◌, ◌++◌, none, replicate}
use sdk_cp.Serializer.{Layout, wide, text, vec, El, Out, amts_serialize, amts_deserialize}
use sdk_cp.Serializer.Encoding.{encoding, IsValue, bytes_of, amts_serialize-encoding, advanced}
use sdk_cp.Serializer.Reading.{read_on, amts_deserialize-amts_serialize}
use sdk_cp.Serializer.Limits.{StaysWithin, amts_deserialize-StaysWithin, amts_deserialize_overrun}

abbrev words : El (vec (text 1))
words = (104 ∷ 105 ∷ []) ∷ [] ∷ []

words-IsValue : IsValue (vec (text 1)) words
words-IsValue = (refl, (refl, tt))

abbrev every : Layout → ℕ → Bool
every l n = true

bytes_of-words : bytes_of (vec (text 1)) words ≡ 26
unfolding bytes_of
bytes_of-words = refl

amts_serialize-encoding_example :
    amts_serialize (vec (text 1)) words (record { written = 9 ∷ []; size = 30 }) ≡ (
      true,
      advanced
          (encoding (vec (text 1)) words)
          (bytes_of (vec (text 1)) words)
          (record { written = 9 ∷ []; size = 30 }),
    )
amts_serialize-encoding_example =
    amts_serialize-encoding (vec (text 1)) words (record { written = 9 ∷ []; size = 30 })
      words-IsValue (omega (arith, bytes_of-words)) (omega arith)

amts_deserialize-amts_serialize_example :
    (o : Out) × (amts_serialize (vec (text 1)) words (record { written = []; size = 30 })
      ≡ (true, o))
    × (amts_deserialize every
          (vec (text 1))
          []
          (record { bytes = o.written ++ (7 ∷ []); size = bytes_of (vec (text 1)) words + 1 })
        ≡ read_on words (7 ∷ []) 1)
amts_deserialize-amts_serialize_example =
    amts_deserialize-amts_serialize every (λ k n h. refl) (vec (text 1)) words (7 ∷ []) 30 1
      words-IsValue (omega (arith, bytes_of-words)) (omega arith) (omega (arith, bytes_of-words))

amts_deserialize-StaysWithin_example :
    StaysWithin
      (record { bytes = replicate 9 255; size = 9 })
      (amts_deserialize every (text 2) [] (record { bytes = replicate 9 255; size = 9 }))
amts_deserialize-StaysWithin_example =
    amts_deserialize-StaysWithin every (text 2) [] (record { bytes = replicate 9 255; size = 9 }) tt
      (refl, omega arith)

amts_deserialize_overrun_example :
    amts_deserialize every (wide 4 2) [] (record { bytes = 1 ∷ 2 ∷ 3 ∷ 4 ∷ 5 ∷ []; size = 5 })
    ≡ none
amts_deserialize_overrun_example =
    amts_deserialize_overrun every 4 2 [] (record { bytes = 1 ∷ 2 ∷ 3 ∷ 4 ∷ 5 ∷ []; size = 5 }) refl
      (omega arith) (omega arith)
