-- ===== src/Dataport/Tests.antt =====
-- The theorems on the data port at a file with one record, and at calls that store one.
use sdk_cp.Base.{ℕ, ◌≡◌, refl, arith, true, false, List, [], ◌∷◌, ◌++◌, some, none}
use sdk_cp.Dataport.{ok, invalid_hash, DataportDirect, Answers, header_bytes, get, add}
use sdk_cp.Dataport.Storage.{
  header_for, stored, get-header_for, get_invalid_hash, add-zero_header, get-add,
}

abbrev working : Answers
working = record {
  opens = true;
  seeks = true;
  tells = true;
  writes = λ n. n;
  resizes = λ n. true;
  cached = some [];
  opened = λ l. l;
  text_in = λ l. l;
  text_out = λ l. l;
}

-- A file with the record of some data behind one byte.
abbrev holding : List ℕ → List ℕ → DataportDirect
holding hashed bytes = record {
  database = false;
  file = (0 ∷ []) ++ (header_bytes (header_for hashed) ++ (bytes ++ []));
}

abbrev opened : DataportDirect → DataportDirect
opened d = record { database = true; file = d.file }

get-header_for_example :
    get working (holding (5 ∷ 6 ∷ []) (5 ∷ 6 ∷ [])) 1 []
    ≡ some (ok, 5 ∷ 6 ∷ [], opened (holding (5 ∷ 6 ∷ []) (5 ∷ 6 ∷ [])))
get-header_for_example =
    get-header_for working (holding (5 ∷ 6 ∷ []) (5 ∷ 6 ∷ [])) (0 ∷ []) (5 ∷ 6 ∷ []) [] [] refl
      (refl, refl, refl, refl, refl) (omega arith) (omega arith) (omega arith) (omega arith)

get_invalid_hash_example :
    get working (holding (5 ∷ 6 ∷ []) (5 ∷ 7 ∷ [])) 1 []
    ≡ some (invalid_hash, 5 ∷ 7 ∷ [], opened (holding (5 ∷ 6 ∷ []) (5 ∷ 7 ∷ [])))
get_invalid_hash_example =
    get_invalid_hash working (holding (5 ∷ 6 ∷ []) (5 ∷ 7 ∷ [])) (0 ∷ []) (5 ∷ []) [] [] [] 6 7 refl
      (refl, refl, refl, refl, refl) tt (omega arith) (omega arith) (λ e. omega arith) (omega arith)
      (omega arith) (omega arith)

abbrev one_byte : DataportDirect
one_byte = record { database = false; file = 0 ∷ [] }

add-one_byte :
    add working one_byte 0 (5 ∷ 6 ∷ [])
    ≡ some (ok, 1, record { database = true; file = (0 ∷ []) ++ stored (5 ∷ 6 ∷ []) })
add-one_byte =
    add-zero_header working one_byte 0 5 (6 ∷ []) []
      (refl, refl, refl, refl, refl, refl, refl, refl)

get-add_example :
    get working (record { database = true; file = (0 ∷ []) ++ stored (5 ∷ 6 ∷ []) }) 1 [] ≡ none
get-add_example =
    get-add working working one_byte
      (record { database = true; file = (0 ∷ []) ++ stored (5 ∷ 6 ∷ []) }) 0 1 5 (6 ∷ []) [] []
      (refl, refl, refl, refl, refl, refl, refl, refl) refl refl refl (omega arith) add-one_byte
