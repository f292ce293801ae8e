-- ===== src/Dataport.antt =====
-- dataport/dataport_direct.hpp and dataport_defines.hpp: records appended to a file, each behind a
-- header with the hash and the size of its data, and read back by their address. An address is an
-- `int64_t` as a word of 64 bits. What stdio, the allocator and the cache answer is a parameter.
pub mod Records
pub mod Storage
mod Tests
use mathlib.Core.Option
use sdk_cp.Base.{
  ℕ, ◌+◌, ◌-◌, ◌*◌, ◌/◌, ◌%◌, ◌^◌, Bool, true, false, if◌then◌else◌, ◌&&◌, ltb, leb, ◌==◌, List, [],
  ◌∷◌, ◌++◌, length, take, drop, replicate, Option, none, some,
}
use sdk_cp.Ws.Bytes.{le_bytes, le_value}
use sdk_cp.Hash.{fnv1a_hash_bytes}

pub data EdataError : Type 0 where
  ok : EdataError
  open_file_failed : EdataError
  invalid_arg : EdataError
  write_operation_failed : EdataError
  read_operation_failed : EdataError
  memory_resize_failed : EdataError
  invalid_hash : EdataError
  set_file_position_failed : EdataError

pub record MessageHeader : Type 0 where
  hash : ℕ
  size : ℕ

-- The object: whether `_database` is set, and the bytes of the file named `_db_name`.
pub record DataportDirect : Type 0 where
  database : Bool
  file : List ℕ

-- What the libraries answer: `fopen`, the seek to an address, `ftell`, how many of some bytes
-- `fwrite` takes, whether a vector gets a size, and the cached vector, absent for a null one. The
-- mode "a+" opens a text stream: what the opening leaves of the file, which may end in Ctrl-Z, what
-- reading gives for the bytes from a position on, and what writing puts into the file for bytes.
pub record Answers : Type 0 where
  opens : Bool
  seeks : Bool
  tells : Bool
  writes : ℕ → ℕ
  resizes : ℕ → Bool
  cached : Option (List ℕ)
  opened : List ℕ → List ℕ
  text_in : List ℕ → List ℕ
  text_out : List ℕ → List ℕ

-- The header's bytes in memory, and the header that 16 bytes hold.
abbrev pub header_bytes : MessageHeader → List ℕ
header_bytes h = le_bytes 8 h.hash ++ le_bytes 8 h.size

abbrev pub header_value : List ℕ → MessageHeader
header_value bs = record { hash = le_value (take 8 bs); size = le_value (drop 8 bs) }

-- `vector::resize`, and `memcpy` to an offset of a vector.
abbrev pub resize : ℕ → List ℕ → List ℕ
resize n v = take n v ++ replicate (n - length v) 0

abbrev pub memcpy_at : ℕ → List ℕ → List ℕ → List ℕ
memcpy_at offset bytes v = take offset v ++ (bytes ++ drop (length bytes) (drop offset v))

-- `fread(_, size, 1, file)` on what follows the position: its answer is 1 for a whole item.
abbrev pub fread_one : ℕ → List ℕ → Bool
fread_one size stream = ltb 0 size && leb size (length stream)

unfoldable pub data_hash : List ℕ → ℕ
data_hash bytes = fnv1a_hash_bytes bytes

unfoldable pub data_format : MessageHeader → List ℕ → List ℕ → List ℕ
data_format header bytes out =
    memcpy_at 16 bytes (memcpy_at 0 (header_bytes header) (resize (16 + length bytes) out))

unfoldable pub database_open : Answers → DataportDirect → EdataError × DataportDirect
database_open io d =
    if d.database
    then (ok, d)
    else if io.opens
    then (ok, record { database = true; file = io.opened d.file })
    else (open_file_failed, d)

-- `_database_end_position`: -1 where `ftell` fails.
unfoldable pub database_end_position : Answers → DataportDirect → ℕ
database_end_position io d = if io.tells then length d.file else 2 ^ 64 - 1

-- The write proper, of a formatted vector.
abbrev pub fwrite_buffer : Answers → DataportDirect → List ℕ → EdataError × ℕ × DataportDirect
fwrite_buffer io d buffer = (
  if leb (length buffer) (io.writes (length buffer)) then ok else write_operation_failed,
  database_end_position io d,
  record {
    database = d.database;
    file = d.file ++ io.text_out (take (io.writes (length buffer)) buffer);
  },
)

-- The vector that `_database_write` writes: the hash and the size go into its first bytes, and
-- then `_data_format` fills it from the message.
abbrev pub write_buffer : MessageHeader → List ℕ → List ℕ → List ℕ
write_buffer header bytes cached = data_format header bytes (
    memcpy_at 0 (header_bytes (record { hash = data_hash bytes; size = length bytes }))
      (resize 16 cached))

-- `none`: the cache has no vector, or the vector no memory, whose exception nothing catches.
abbrev pub write_cached :
    Answers
    → DataportDirect
    → MessageHeader
    → List ℕ
    → Option (List ℕ)
    → Option (EdataError × ℕ × DataportDirect)
write_cached io d header bytes none = none
write_cached io d header bytes (some v) =
    if io.resizes 16 && io.resizes (16 + length bytes)
    then some (fwrite_buffer io d (write_buffer header bytes v))
    else none

unfoldable pub database_write :
    Answers → DataportDirect → MessageHeader → List ℕ → Option (EdataError × ℕ × DataportDirect)
database_write io d header bytes = write_cached io d header bytes io.cached

-- The second `fread` and the check of the hash, on what follows the header. Without data, `none`:
-- the first element of an empty vector is taken.
abbrev pub read_data : MessageHeader → List ℕ → List ℕ → Option (EdataError × List ℕ)
read_data header stream out =
    let data' = memcpy_at 0 (take header.size stream) (resize header.size out) in
    if header.size == 0
    then none
    else some (
      if fread_one header.size stream
          then (if data_hash data' == header.hash then ok else invalid_hash)
          else read_operation_failed,
      data',
    )

abbrev pub read_sized : Answers → MessageHeader → List ℕ → List ℕ → Option (EdataError × List ℕ)
read_sized io header stream out =
    if io.resizes header.size then read_data header stream out else some (memory_resize_failed, out)

abbrev pub read_message : Answers → List ℕ → List ℕ → Option (EdataError × List ℕ)
read_message io stream out =
    if fread_one 16 stream
    then read_sized io (header_value (take 16 stream)) (drop 16 stream) out
    else some (read_operation_failed, out)

-- A negative address has no position.
unfoldable pub database_read : Answers → DataportDirect → ℕ → List ℕ → Option (EdataError × List ℕ)
database_read io d addr out =
    if ltb addr (2 ^ 63) && io.seeks
    then read_message io (io.text_in (drop addr d.file)) out
    else some (set_file_position_failed, out)

-- What `add` does once the file is open. `addr` keeps its value where nothing is written.
abbrev pub add_opened :
    Answers → ℕ → List ℕ → EdataError × DataportDirect → Option (EdataError × ℕ × DataportDirect)
add_opened io addr bytes (ok, d) = database_write io d (record { hash = 0; size = 0 }) bytes
add_opened io addr bytes (e, d) = some (e, addr, d)

unfoldable pub add :
    Answers → DataportDirect → ℕ → List ℕ → Option (EdataError × ℕ × DataportDirect)
add io d addr [] = some (invalid_arg, addr, d)
add io d addr (b ∷ bs) = add_opened io addr (b ∷ bs) (database_open io d)

abbrev pub with_port : DataportDirect → EdataError × List ℕ → EdataError × List ℕ × DataportDirect
with_port d (e, out) = (e, out, d)

abbrev pub get_opened :
    Answers
    → ℕ
    → List ℕ
    → EdataError × DataportDirect
    → Option (EdataError × List ℕ × DataportDirect)
get_opened io addr out (ok, d) = Option.map (with_port d) (database_read io d addr out)
get_opened io addr out (e, d) = some (e, out, d)

unfoldable pub get :
    Answers → DataportDirect → ℕ → List ℕ → Option (EdataError × List ℕ × DataportDirect)
get io d addr out =
    if addr == 0 then some (invalid_arg, out, d) else get_opened io addr out (database_open io d)
