-- ===== src/Dataport/Storage.antt =====
-- What `get` answers for a record of the file, and what `add` leaves there.
use sdk_cp.Base.{
  none, subst, ℕ, ◌+◌, ◌^◌, ◌≤◌, ◌<◌, ◌≡◌, ◌≢◌, refl, arith, ap, sym, ◌∙◌, true, if◌then◌else◌,
  ◌||◌, ◌==◌, le→leb, lt→ltb, ==_ne, ==_refl, List, ◌∷◌, ◌++◌, length, length-append, take-length,
  drop-append_length, dec_le, some_eq, All, IsByte, some,
}
use sdk_cp.Hash.{fnv1a_hash_bytes}
use sdk_cp.Hash.Fnv.{fnv1a_hash_bytes_change, fnv1a_hash_bytes-lt}
use sdk_cp.Dataport.{
  EdataError, ok, invalid_arg, invalid_hash, MessageHeader, DataportDirect, Answers, header_bytes,
  resize, memcpy_at, data_hash, database_open, database_end_position, fwrite_buffer, write_buffer,
  write_cached, database_write, database_read, add, get,
}
use sdk_cp.Dataport.Records.{data_format_lem, get-record, Serves, database_open_opens}

-- The header that `_database_write` means to store for some data.
abbrev pub header_for : List ℕ → MessageHeader
header_for bytes = record { hash = fnv1a_hash_bytes bytes; size = length bytes }

-- At the address of a record with the header of its data, `get` answers ok and the data, where
-- the file opens, the seek works, the vector gets its size, and the text stream leaves the file and
-- the bytes from the address on as they are. The address is not 0 and the data are not empty.
pub get-header_for :
    (io : Answers) (d : DataportDirect) (pre bytes post out : List ℕ)
    → d.file ≡ pre ++ (header_bytes (header_for bytes) ++ (bytes ++ post))
    → Serves io d (length pre) (length bytes)
    → 0 < length bytes
    → length bytes < 2 ^ 64
    → 0 < length pre
    → length pre < 2 ^ 63
    → get io d (length pre) out ≡ some (ok, bytes, record { database = true; file = d.file })
unfolding data_hash
get-header_for io d pre bytes post out e serves some_data size pos small =
    get-record io d (header_for bytes) pre bytes post out e serves
      (fnv1a_hash_bytes-lt bytes, size, some_data, refl) pos small
    ∙ rw (==_refl (fnv1a_hash_bytes bytes))

-- Where one byte of the data in the file is not the byte that the header's hash was taken of,
-- `get` answers invalid_hash and the data as they are in the file, under the conditions on the
-- libraries' answers and the text stream under which it would answer ok.
pub get_invalid_hash :
    (io : Answers) (d : DataportDirect) (pre u v post out : List ℕ) (a b : ℕ)
    → d.file ≡ pre ++ (header_bytes (header_for (u ++ (a ∷ v))) ++ ((u ++ (b ∷ v)) ++ post))
    → Serves io d (length pre) (length (u ++ (b ∷ v)))
    → All IsByte v
    → IsByte a
    → IsByte b
    → a ≢ b
    → length (u ++ (b ∷ v)) < 2 ^ 64
    → 0 < length pre
    → length pre < 2 ^ 63
    → get io d (length pre) out
      ≡ some (invalid_hash, u ++ (b ∷ v), record { database = true; file = d.file })
unfolding data_hash
get_invalid_hash io d pre u v post out a b e serves hv ha hb ne size pos small =
    get-record io d (header_for (u ++ (a ∷ v))) pre (u ++ (b ∷ v)) post out e serves
      (
        fnv1a_hash_bytes-lt (u ++ (a ∷ v)),
        size,
        omega (arith, length-append u (b ∷ v)),
        omega (arith, length-append u (a ∷ v), length-append u (b ∷ v)),
      )
      pos small
    ∙ rw (
        ==_ne (fnv1a_hash_bytes (u ++ (b ∷ v))) (fnv1a_hash_bytes (u ++ (a ∷ v)))
          (fnv1a_hash_bytes_change u v b a hv hb ha (λ e. ne (sym e))))

-- The header that the formatted vector begins with.
abbrev pub zero_header : MessageHeader
zero_header = record { hash = 0; size = 0 }

-- What `_database_write` writes for the message of `add`.
abbrev pub stored : List ℕ → List ℕ
stored bytes = header_bytes zero_header ++ bytes

-- The libraries' answers do not stop a call of `add` for `n` bytes of data, and the text stream
-- leaves the file and the bytes that are written as they are.
abbrev pub Stores : Answers → DataportDirect → List ℕ → List ℕ → Type 0
Stores io d bytes cached =
    ((d.database || io.opens) ≡ true)
    × (io.cached ≡ some cached)
    × (io.resizes 16 ≡ true)
    × (io.resizes (16 + length bytes) ≡ true)
    × (io.writes (length (stored bytes)) ≡ length (stored bytes))
    × (io.tells ≡ true)
    × (io.opened d.file ≡ d.file)
    × (io.text_out (stored bytes) ≡ stored bytes)

fwrite_buffer_all :
    (io : Answers) (d : DataportDirect) (buffer : List ℕ)
    → io.writes (length buffer) ≡ length buffer
    → io.tells ≡ true
    → io.text_out buffer ≡ buffer
    → fwrite_buffer io d buffer
      ≡ (ok, length d.file, record { database = d.database; file = d.file ++ buffer })
unfolding database_end_position
fwrite_buffer_all io d buffer writes tells plain =
    rw (
      writes,
      tells,
      le→leb (length buffer) (length buffer) (omega arith),
      take-length buffer,
      plain,
    )

-- Where no library call fails, `add` of data that are not empty answers ok and the size of the
-- file as the address, and appends a header of zeros and the data: neither the hash nor the size
-- of the data.
pub add-zero_header :
    (io : Answers) (d : DataportDirect) (addr : ℕ) (b : ℕ) (bs cached : List ℕ)
    → Stores io d (b ∷ bs) cached
    → add io d addr (b ∷ bs)
      ≡ some (ok, length d.file, record { database = true; file = d.file ++ stored (b ∷ bs) })
unfolding add database_write
add-zero_header io d addr b bs cached (opens, cache, sixteen, memory, writes, tells, same, plain) =
    rw (database_open_opens io d opens same) (
      ap (write_cached io opened zero_header (b ∷ bs)) cache
      ∙ rw (sixteen, memory)
          (ap some (
            ap (fwrite_buffer io opened) format
            ∙ fwrite_buffer_all io opened (stored (b ∷ bs)) writes tells plain)))
  where
    opened : DataportDirect
    opened = record { database = true; file = d.file }

    format : write_buffer zero_header (b ∷ bs) cached ≡ stored (b ∷ bs)
    format = data_format_lem zero_header (b ∷ bs) (
        memcpy_at 0 (header_bytes (record { hash = data_hash (b ∷ bs); size = length (b ∷ bs) }))
          (resize 16 cached))

-- The read of a record with such a header comes to the first element of an empty vector.
get-stored :
    (io : Answers) (pre bytes out : List ℕ)
    → io.seeks ≡ true
    → io.resizes 0 ≡ true
    → io.text_in (stored bytes) ≡ stored bytes
    → 0 < length pre
    → length pre < 2 ^ 63
    → get io (record { database = true; file = pre ++ stored bytes }) (length pre) out ≡ none
unfolding get database_open database_read
get-stored io pre bytes out seeks memory plain pos small = rw (
  ==_ne (length pre) 0 (omega arith),
  lt→ltb (length pre) (2 ^ 63) small,
  seeks,
  drop-append_length pre (stored bytes),
  plain,
  le→leb 16 (length (stored bytes)) (omega arith),
  memory,
)

get_zero :
    (io : Answers) (d : DataportDirect) (addr : ℕ) (out : List ℕ)
    → addr ≡ 0
    → get io d addr out ≡ some (invalid_arg, out, d)
unfolding get
get_zero io d addr out e = rw (e)

-- What `add` has stored, `get` never gives back: with libraries that fail in neither call and a
-- text stream that leaves the bytes as they are, `get` at the address that `add` answered is refused
-- as invalid_arg where the file was empty, and otherwise is undefined: it makes the vector empty, as
-- the stored size says, and takes its first element.
pub get-add :
    (io later : Answers) (d d' : DataportDirect) (addr addr' b : ℕ) (bs cached out : List ℕ)
    → Stores io d (b ∷ bs) cached
    → later.seeks ≡ true
    → later.resizes 0 ≡ true
    → later.text_in (stored (b ∷ bs)) ≡ stored (b ∷ bs)
    → length d.file < 2 ^ 63
    → add io d addr (b ∷ bs) ≡ some (ok, addr', d')
    → get later d' addr' out ≡ (if length d.file == 0 then some (invalid_arg, out, d') else none)
get-add io later d d' addr addr' b bs cached out stores seeks memory plain small e =
    subst
      (λ (r : EdataError × ℕ × DataportDirect).
        get later r.2 r.1 out ≡ (if length d.file == 0 then some (invalid_arg, out, r.2) else none))
      (some_eq (sym (add-zero_header io d addr b bs cached stores) ∙ e))
      (at_end (dec_le (length d.file) 0))
  where
    empty : length d.file ≤ 0 → length d.file ≡ 0
    empty z = omega arith

    later_file : DataportDirect
    later_file = record { database = true; file = d.file ++ stored (b ∷ bs) }

    at_end :
        Dec (length d.file ≤ 0)
        → get later later_file (length d.file) out
          ≡ (if length d.file == 0 then some (invalid_arg, out, later_file) else none)
    at_end (yes z) = get_zero later later_file (length d.file) out (empty z) ∙ rw (empty z)
    at_end (no nz) =
        get-stored later d.file (b ∷ bs) out seeks memory plain (omega arith) small
        ∙ rw (==_ne (length d.file) 0 (omega arith))
