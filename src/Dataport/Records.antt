-- ===== src/Dataport/Records.antt =====
-- What stands in the file: the bytes of a record, and the calls that write and read them.
use sdk_cp.Base.{
  some, ℕ, zero, suc, ◌+◌, ◌-◌, ◌^◌, ◌≤◌, ◌<◌, ◌≡◌, refl, arith, ap, ap₂, sym, ◌∙◌, true, false,
  if◌then◌else◌, ◌||◌, ◌==◌, le→leb, lt→ltb, ==_ne, List, [], ◌∷◌, ◌++◌, append-nil, length,
  length-append, length-take, length-drop, length-replicate, take, drop, take-append_length,
  drop-append_length, replicate, inl, inr, Bool-cases,
}
use sdk_cp.Ws.Frame.Info.{le_value-le_bytes_eight}
use sdk_cp.Dataport.{
  EdataError, ok, invalid_hash, MessageHeader, DataportDirect, Answers, header_bytes, header_value,
  resize, memcpy_at, data_hash, data_format, database_open, read_data, read_sized, read_message,
  database_read, get,
}

drop_all : (n : ℕ) (v : List ℕ) → length v ≤ n → drop n v ≡ []
drop_all zero [] h = refl
drop_all zero (x ∷ v) h = absurd (omega arith)
drop_all (suc n) [] h = refl
drop_all (suc n) (x ∷ v) h = drop_all n v (omega arith)

pub length-resize : (n : ℕ) (v : List ℕ) → length (resize n v) ≡ n
length-resize n v = omega (
  arith,
  length-append (take n v) (replicate (n - length v) 0),
  length-take n v,
  length-replicate {A = ℕ} (n - length v) 0,
)

-- A copy over all of a vector leaves the bytes copied.
pub memcpy_at_all : (bytes v : List ℕ) → length v ≡ length bytes → memcpy_at 0 bytes v ≡ bytes
memcpy_at_all bytes v e = rw (drop_all (length bytes) v (omega arith), append-nil bytes)

-- The formatted vector is the header's bytes and the data.
pub data_format_lem :
    (h : MessageHeader) (bytes out : List ℕ) → data_format h bytes out ≡ header_bytes h ++ bytes
unfolding data_format
data_format_lem h bytes out =
    ap (λ (t : List ℕ). header_bytes h ++ (bytes ++ t))
      (drop_all (length bytes) rest (omega (arith, measure)))
    ∙ ap (λ t. header_bytes h ++ t) (append-nil bytes)
  where
    rest : List ℕ
    rest = drop 16 (resize (16 + length bytes) out)

    measure : length rest ≡ 16 + length bytes - 16
    measure =
        length-drop 16 (resize (16 + length bytes) out)
        ∙ ap (λ n. n - 16) (length-resize (16 + length bytes) out)

abbrev header_of : ℕ → ℕ → MessageHeader
header_of hash size = record { hash = hash; size = size }

pub header_value-header_bytes :
    (h : MessageHeader) → h.hash < 2 ^ 64 → h.size < 2 ^ 64 → header_value (header_bytes h) ≡ h
header_value-header_bytes h hash size =
    ap₂ header_of (le_value-le_bytes_eight h.hash hash) (le_value-le_bytes_eight h.size size)

-- The answer of a read that has got all of a record.
abbrev pub checked : MessageHeader → List ℕ → EdataError × List ℕ
checked h bytes = (if data_hash bytes == h.hash then ok else invalid_hash, bytes)

read_data-record :
    (h : MessageHeader) (bytes post out : List ℕ)
    → h.size ≡ length bytes
    → 0 < length bytes
    → read_data h (bytes ++ post) out ≡ some (checked h bytes)
read_data-record h bytes post out e some_data = rw (
  e,
  ==_ne (length bytes) 0 (omega arith),
  take-append_length bytes post,
  memcpy_at_all bytes (resize (length bytes) out) (length-resize (length bytes) out),
  lt→ltb 0 (length bytes) some_data,
  le→leb (length bytes) (length (bytes ++ post)) (omega (arith, length-append bytes post)),
)

-- A header that fits its field and tells the size of data that are there.
abbrev pub IsHeader : MessageHeader → List ℕ → Type 0
IsHeader h bytes =
    (h.hash < 2 ^ 64) × (length bytes < 2 ^ 64) × (0 < length bytes) × (h.size ≡ length bytes)

-- The libraries' answers do not stop a call of `get` for `n` bytes of data at an address, and the
-- text stream leaves the file and the bytes from the address on as they are. On Windows it does for
-- bytes without CR, LF and Ctrl-Z, and elsewhere for all.
abbrev pub Serves : Answers → DataportDirect → ℕ → ℕ → Type 0
Serves io d addr n =
    ((d.database || io.opens) ≡ true)
    × (io.seeks ≡ true)
    × (io.resizes n ≡ true)
    × (io.opened d.file ≡ d.file)
    × (io.text_in (drop addr d.file) ≡ drop addr d.file)

read_message-record :
    (io : Answers) (h : MessageHeader) (bytes post out : List ℕ)
    → IsHeader h bytes
    → io.resizes (length bytes) ≡ true
    → read_message io (header_bytes h ++ (bytes ++ post)) out ≡ some (checked h bytes)
read_message-record io h bytes post out (hash, size, some_data, e) memory =
    rw (le→leb 16 (length (header_bytes h ++ (bytes ++ post))) (omega arith)) (
      ap (λ h'. read_sized io h' (bytes ++ post) out)
        (header_value-header_bytes h hash (omega arith))
      ∙ rw (ap io.resizes e, memory) (read_data-record h bytes post out e some_data))

-- A file that is open already or can be opened.
pub database_open_opens :
    (io : Answers) (d : DataportDirect)
    → (d.database || io.opens) ≡ true
    → io.opened d.file ≡ d.file
    → database_open io d ≡ (ok, record { database = true; file = d.file })
unfolding database_open
database_open_opens io d h same = elim (Bool-cases d.database) [
  | inl e ↦ rw (e)
  | inr e ↦ rw (e, open_closed e, same)
]
  where
    open_closed : d.database ≡ false → io.opens ≡ true
    open_closed e = ap (λ b. b || io.opens) (sym e) ∙ h

drop_pre : (pre rest : List ℕ) (file : List ℕ) → file ≡ pre ++ rest → drop (length pre) file ≡ rest
drop_pre pre rest file e = rw (e) (drop-append_length pre rest)

-- A call of `get` at the address of a record.
pub get-record :
    (io : Answers) (d : DataportDirect) (h : MessageHeader) (pre bytes post out : List ℕ)
    → d.file ≡ pre ++ (header_bytes h ++ (bytes ++ post))
    → Serves io d (length pre) (length bytes)
    → IsHeader h bytes
    → 0 < length pre
    → length pre < 2 ^ 63
    → get io d (length pre) out
      ≡ some ((checked h bytes).0, (checked h bytes).1, record { database = true; file = d.file })
unfolding get database_read
get-record io d h pre bytes post out e (opens, seeks, memory, same, plain) is pos small = rw (
  ==_ne (length pre) 0 (omega arith),
  database_open_opens io d opens same,
  lt→ltb (length pre) (2 ^ 63) small,
  seeks,
  plain,
  drop_pre pre (header_bytes h ++ (bytes ++ post)) d.file e,
  read_message-record io h bytes post out is memory,
)
